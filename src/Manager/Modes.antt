-- ===== src/Manager/Modes.antt =====
-- The modes of DHCP and of link-local addresses that a link's file has behind `manager_set_ipv4` and
-- `manager_set_ipv6` of `src/manager/network-manager.c`.
use mathlib.Core.Path.{subst}
use network_config_manager.Base.{
  ◌≡◌, refl, sym, ◌∙◌, Bool, false, Bool-cases, inl, inr, ◌&&◌, List, [], ◌∷◌, Bytes, codes, Option,
  none, some, if◌then◌else◌, All, arith,
}
use network_config_manager.CLib.{streq}
use network_config_manager.CLib.Strtol.{Long}
use network_config_manager.Outcome.{Outcome, ok}
use network_config_manager.KeyFile.{KeyFile, Key, Section, key_file_parse_str}
use network_config_manager.KeyFile.Put.{put, find_in-put, set_config-Edited}
use network_config_manager.KeyFile.Printable.{IsPrintable}
use network_config_manager.KeyFile.Stays.{IsPrintableEdit, IsPrintable-IsIntact, put-IsPrintable}
use network_config_manager.KeyFile.Removal.Restart.{
  count_in, delete_sections, delete_sections-behind_first, behind_first, without_counted,
}
use network_config_manager.NetworkUtil.{Inet}
use network_config_manager.Network.Sections.{append_each}
use network_config_manager.Manager.Families.{FamilyConf, tried, replace_family}
use network_config_manager.Manager.Removal.{
  manager_replace_link_address_internal, manager_remove_gateway_or_route_full_internal,
  delete_addresses,
}

abbrev network : Bytes
network = codes "Network"

-- The section has neither addresses nor routes.
abbrev pub IsOther : Section → Type 0
IsOther s = (streq s.name (codes "Address") ≡ false) × (streq s.name (codes "Route") ≡ false)

module _ (section : Bytes) (hit : Key → Outcome Bool) where
  without-none :
      (ss : List Section)
      → All (λ s. streq s.name section ≡ false) ss
      → without_counted (count_in section hit) ss ≡ ok ss
  unfolding without_counted count_in
  without-none [] h = refl
  without-none (s ∷ ss) (p, h) = rw p (rw (without-none ss h) refl)

  behind-none :
      (ss : List Section)
      → All (λ s. streq s.name section ≡ false) ss
      → behind_first (count_in section hit) ss ≡ ok ss
  unfolding behind_first count_in
  behind-none [] h = refl
  behind-none (s ∷ ss) (p, h) = rw p (rw (without-none ss h) refl)

  delete-none :
      (kf : KeyFile)
      → All (λ s. streq s.name section ≡ false) kf.sections
      → delete_sections (count_in section hit) kf ≡ ok kf
  delete-none kf h =
      delete_sections-behind_first (count_in section hit) kf ∙ rw (behind-none kf.sections h) refl

no_address :
    (ss : List Section) → All IsOther ss → All (λ s. streq s.name (codes "Address") ≡ false) ss
no_address [] h = tt
no_address (s ∷ ss) (p, h) = (p.0, no_address ss h)

no_route : (ss : List Section) → All IsOther ss → All (λ s. streq s.name (codes "Route") ≡ false) ss
no_route [] h = tt
no_route (s ∷ ss) (p, h) = (p.1, no_route ss h)

-- Without an address or a gateway to set, a file without addresses and routes stays as it is.
pub replace_family-none :
    (inet : Inet) (c : FamilyConf) (flag : Long) (kf : KeyFile)
    → c.addrs ≡ []
    → c.gateway ≡ none
    → All IsOther kf.sections
    → replace_family inet c flag kf ≡ ok kf
unfolding replace_family manager_replace_link_address_internal
    manager_remove_gateway_or_route_full_internal delete_addresses append_each
replace_family-none inet c flag kf a b h = rw a (
    rw b (
      rw (delete-none (codes "Address") _ kf (no_address kf.sections h))
        (delete-none (codes "Route") _ kf (no_route kf.sections h))))

-- What is written for a key can be written.
abbrev pub Writes : Bytes → Option Bytes → Type 0
Writes k none = Unit
Writes k (some x) = IsPrintableEdit network k x

abbrev pub over : Option Bytes → Bool → Outcome Bytes → Outcome Bytes
over none b old = old
over (some x) b old = if b then ok x else old

pub record InMemory (path : Bytes) (kf : KeyFile) : Type 0 where
  pub named : kf.name ≡ path
  pub printable : All IsPrintable kf.sections
  pub others : All IsOther kf.sections

put-IsOther : (ss : List Section) (k x : Bytes) → All IsOther ss → All IsOther (put ss network k x)
unfolding put streq
put-IsOther [] k x h = ((refl, refl), tt)
put-IsOther (s ∷ ss) k x (p, h) = elim (Bool-cases (streq s.name network)) [
  | inl same ↦ rw same (p, h)
  | inr other ↦ rw other (p, put-IsOther ss k x h)
]

parse_str-put :
    (kf after : KeyFile) (k x k' : Bytes)
    → after.sections ≡ put kf.sections network k x
    → key_file_parse_str after network k'
      ≡ (if streq network network && streq k k' then ok x else key_file_parse_str kf network k')
unfolding key_file_parse_str
parse_str-put kf after k x k' e = ground (arith, e, find_in-put kf.sections network k x network k')

network-streq :
    (b : Bool) (x : Outcome Bytes) (y : Outcome Bytes)
    → (if streq network network && b then x else y) ≡ (if b then x else y)
unfolding streq
network-streq b x y = refl

pub tried-InMemory :
    (path k : Bytes) (o : Option Bytes) (kf : KeyFile)
    → Writes k o
    → InMemory path kf
    → (kf' : KeyFile) × (tried k o kf ≡ ok kf')
      × InMemory path kf'
      × ((k' : Bytes)
          → key_file_parse_str kf' network k'
            ≡ over o (streq k k') (key_file_parse_str kf network k'))
unfolding tried
tried-InMemory path k none kf n m = (kf, refl, m, λ k'. refl)
tried-InMemory path k (some x) kf n m =
    let (after, set, edit) =
      set_config-Edited kf network k x (IsPrintable-IsIntact kf.sections m.printable) in
    (
      after,
      rw (set, tried) refl,
      record {
        named = edit.name_kept ∙ m.named;
        printable =
            subst (All IsPrintable) (sym edit.sections_are)
              (put-IsPrintable kf.sections network k x n m.printable);
        others = subst (All IsOther) (sym edit.sections_are) (put-IsOther kf.sections k x m.others);
      },
      λ k'.
          parse_str-put kf after k x k' edit.sections_are
          ∙ network-streq (streq k k') (ok x) (key_file_parse_str kf network k'),
    )
