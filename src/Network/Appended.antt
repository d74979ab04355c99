-- ===== src/Network/Appended.antt =====
-- What the sections that are appended to a key file leave to a reader of the others.
use network_config_manager.Base.{
  ◌≡◌, refl, ap, ◌∙◌, Bool, true, false, ◌||◌, List, [], ◌∷◌, ◌++◌, Bytes, codes, Option, none,
  some, arith,
}
use network_config_manager.CLib.{streq, streq_iff}
use network_config_manager.Outcome.{Outcome, ok}
use network_config_manager.KeyFile.{
  Key, Section, KeyFile, find_in, section_new, key_new, add_key_to_section, add_section_to_key_file,
}
use network_config_manager.KeyFile.Put.{
  IsIntact, IntactKeys, IsCounted, add_section_to_key_file-IsCounted,
}
use network_config_manager.Network.Sections.{Entry, add_entries, add_new_section}

-- The names of the sections that come once for each address, route, rule, virtual function, lease or
-- peer.
unfoldable pub is_listed : Bytes → Bool
is_listed name =
    streq name (codes "Address")
    || streq name (codes "Route")
    || streq name (codes "RoutingPolicyRule")
    || streq name (codes "SR-IOV")
    || streq name (codes "DHCPServerStaticLease")
    || streq name (codes "WireGuardPeer")

IntactKeys-append :
    (ks : List Key) (k : Bytes) (x : Option Bytes)
    → IntactKeys ks
    → IntactKeys (ks ++ (key_new k x ∷ []))
IntactKeys-append [] k none h = (λ e. cc e, tt)
IntactKeys-append [] k (some x) h = (λ e. cc e, tt)
IntactKeys-append (key ∷ ks) k x h = (h.0, IntactKeys-append ks k x h.1)

-- Every entry has its text or NULL.
pub data HasTexts : List Entry → Type 0 where
  no_entry : HasTexts []
  one_more :
      {k : Bytes} {v : Outcome (Option Bytes)} {es : List Entry} (o : Option Bytes)
      → v ≡ ok o
      → HasTexts es
      → HasTexts ((k, v) ∷ es)

add_entries-ok :
    (s : Section) (es : List Entry)
    → IntactKeys s.keys
    → HasTexts es
    → (t : Section) × (add_entries s es ≡ ok t) × (t.name ≡ s.name) × IntactKeys t.keys
unfolding add_entries add_key_to_section
add_entries-ok s [] h no_entry = (s, refl, refl, h)
add_entries-ok s ((k, v) ∷ es) h (one_more o e has) = rw e (
    add_entries-ok (record s { keys = s.keys ++ (key_new k o ∷ []) }) es
      (IntactKeys-append s.keys k o h) has)

-- A key file before and after sections of these names were appended.
pub record Appended (before after : KeyFile) : Type 0 where
  pub reads :
      (section k : Bytes)
      → is_listed section ≡ false
      → find_in after.sections section k ≡ find_in before.sections section k
  pub name_kept : after.name ≡ before.name
  pub counted : IsCounted before → IsCounted after
  pub intact : IsIntact before.sections → IsIntact after.sections

pub Appended-refl : (kf : KeyFile) → Appended kf kf
Appended-refl kf = record {
  reads = λ section k e. refl;
  name_kept = refl;
  counted = λ c. c;
  intact = λ h. h;
}

pub Appended-trans : (a b c : KeyFile) → Appended a b → Appended b c → Appended a c
Appended-trans a b c p q = record {
  reads = λ section k e. q.reads section k e ∙ p.reads section k e;
  name_kept = q.name_kept ∙ p.name_kept;
  counted = λ x. q.counted (p.counted x);
  intact = λ x. q.intact (p.intact x);
}

find_in-last :
    (ss : List Section) (t : Section) (section k : Bytes)
    → streq t.name section ≡ false
    → find_in (ss ++ (t ∷ [])) section k ≡ find_in ss section k
unfolding find_in
find_in-last [] t section k e = ground arith
find_in-last (s ∷ ss) t section k e = ground (arith, find_in-last ss t section k e)

IsIntact-last :
    (ss : List Section) (t : Section) → IsIntact ss → IntactKeys t.keys → IsIntact (ss ++ (t ∷ []))
IsIntact-last [] t h i = (i, tt)
IsIntact-last (s ∷ ss) t h i = (h.0, IsIntact-last ss t h.1 i)

listed_other :
    (name section : Bytes)
    → is_listed name ≡ true
    → is_listed section ≡ false
    → streq name section ≡ false
listed_other name section l e = ground (arith, streq_iff name section)

add_section-Appended :
    (kf : KeyFile) (t : Section)
    → is_listed t.name ≡ true
    → IntactKeys t.keys
    → Appended kf (add_section_to_key_file kf t)
add_section-Appended kf t l i = record {
  reads = λ section k e.
      unfold add_section_to_key_file in
      find_in-last kf.sections t section k (listed_other t.name section l e);
  name_kept = unfold add_section_to_key_file in refl;
  counted = add_section_to_key_file-IsCounted kf t;
  intact = λ h. unfold add_section_to_key_file in IsIntact-last kf.sections t h i;
}

pub add_new_section-Appended :
    (kf : KeyFile) (name : Bytes) (es : List Entry)
    → is_listed name ≡ true
    → HasTexts es
    → (after : KeyFile) × (add_new_section kf name es ≡ ok after) × Appended kf after
unfolding add_new_section
add_new_section-Appended kf name es l has =
    let (t, added, named, i) = add_entries-ok (section_new name) es tt has in
    (
      add_section_to_key_file kf t,
      rw added refl,
      add_section-Appended kf t (ap is_listed named ∙ l) i,
    )
