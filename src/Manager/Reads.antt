-- ===== src/Manager/Reads.antt =====
-- What `parse_config_file` reads from a link's file behind the operations that set one setting.
use network_config_manager.Base.{
  ℕ, ◌%◌, ◌^◌, leb, ◌≡◌, ap, ◌≢◌, Bool-cases, inl, inr, ◌∙◌, Bool, ◌&&◌, List, Bytes, codes, Option,
  none, some, if◌then◌else◌, arith,
}
use network_config_manager.CLib.{streq}
use network_config_manager.Glib.{Glib, GlibLaws}
use network_config_manager.Outcome.{Outcome, ok, err, fault}
use network_config_manager.KeyFile.{Section}
use network_config_manager.KeyFile.Stays.{IsPrintableEdit}
use network_config_manager.NetworkUtil.Names.{IfNameIndex}
use network_config_manager.ConfFile.{
  ◌>>=◌, Files, Call, pure, parse_key_file, parse_config_file, set_config_file_str,
  set_config_file_int, set_config_file_bool,
}
use network_config_manager.ConfFile.EndToEnd.{
  FilesLaws, IsOwnFile, parse_config_file-set_config_file_str,
}
use network_config_manager.Network.Paths.{System}
use network_config_manager.Network.Created.{SystemLaws, IsReady}
use network_config_manager.Manager.{edit_link}
use network_config_manager.Manager.Setters.{
  set_link, dhcp_section, manager_set_link_flag, manager_set_link_local_address,
  manager_set_network_section, manager_set_network_section_bool,
  manager_set_link_dhcp4_client_identifier,
  manager_set_link_ipv6_link_local_address_generation_mode, manager_set_link_ipv6_dad,
  manager_set_link_mtu, manager_set_link_group, manager_link_set_network_ipv6_mtu,
  manager_set_link_dhcp_client_iaid, manager_set_link_rf_online, manager_set_link_act_policy,
}
use network_config_manager.CLib.Decimal.{print_uint}
use network_config_manager.CLib.Strtol.{Long}
use network_config_manager.StringUtil.{bool_to_str}
use network_config_manager.KeyFile.Numbers.{print_int}
use network_config_manager.EnumTable.{enum_to_name}
use network_config_manager.EnumTable.Network.{
  dhcp_client_identifier, ipv6_link_local_address_gen_type,
}
use network_config_manager.Manager.Found.{IsManaged, create_or_parse-found}

-- Readers of a file go by what is in it.
pub parse_config_file-same :
    (fs : Files) (g : Glib) (path section k : Bytes) (a b : fs.State)
    → (fs.exists path b ≡ fs.exists path a)
    → (fs.get_contents path b ≡ fs.get_contents path a)
    → (parse_config_file fs g path section k b).0 ≡ (parse_config_file fs g path section k a).0
unfolding parse_config_file parse_key_file
parse_config_file-same fs g path section k a b e h = ground (arith, e, h)

-- The operations that set one setting.
pub data Operation : Type 0 where
  link_flag local_address : Bytes → Bytes → Operation
  network_section : Bytes → Bytes → Operation
  network_section_bool : Bytes → Bool → Operation
  dhcp4_client_identifier ipv6_generation_mode : Long → Operation
  ipv6_dad mtu group ipv6_mtu : ℕ → Operation
  client_iaid : Long → Bytes → Operation
  rf_online act_policy : Bytes → Operation

abbrev pub run :
    (fs : Files) (sys : System fs) (g : Glib) → Operation → IfNameIndex → Call fs (Unit {0})
run fs sys g (link_flag k v) p = manager_set_link_flag fs sys g p k v
run fs sys g (local_address k v) p = manager_set_link_local_address fs sys g p k v
run fs sys g (network_section k v) p = manager_set_network_section fs sys g p k (some v)
run fs sys g (network_section_bool k b) p = manager_set_network_section_bool fs sys g p k b
run fs sys g (dhcp4_client_identifier v) p = manager_set_link_dhcp4_client_identifier fs sys g p v
run fs sys g (ipv6_generation_mode v) p =
    manager_set_link_ipv6_link_local_address_generation_mode fs sys g p v
run fs sys g (ipv6_dad v) p = manager_set_link_ipv6_dad fs sys g p v
run fs sys g (mtu v) p = manager_set_link_mtu fs sys g p v
run fs sys g (group v) p = manager_set_link_group fs sys g p v
run fs sys g (ipv6_mtu v) p = manager_link_set_network_ipv6_mtu fs sys g p v
run fs sys g (client_iaid kind v) p = manager_set_link_dhcp_client_iaid fs sys g p kind (some v)
run fs sys g (rf_online v) p = manager_set_link_rf_online fs sys g p v
run fs sys g (act_policy v) p = manager_set_link_act_policy fs sys g p v

-- The section and the key that an operation is documented to set.
abbrev pub target : Operation → Bytes × Bytes
target (link_flag k v) = (codes "Link", k)
target (local_address k v) = (codes "Network", k)
target (network_section k v) = (codes "Network", k)
target (network_section_bool k b) = (codes "Network", k)
target (dhcp4_client_identifier v) = (codes "DHCPv4", codes "ClientIdentifier")
target (ipv6_generation_mode v) = (codes "Network", codes "IPv6LinkLocalAddressGenerationMode")
target (ipv6_dad v) = (codes "Network", codes "IPv6DuplicateAddressDetection")
target (mtu v) = (codes "Link", codes "MTUBytes")
target (group v) = (codes "Link", codes "Group")
target (ipv6_mtu v) = (codes "Network", codes "IPv6MTUBytes")
target (client_iaid kind v) = (dhcp_section kind, codes "IAID")
target (rf_online v) = (codes "Link", codes "RequiredFamilyForOnline")
target (act_policy v) = (codes "Link", codes "ActivationPolicy")

abbrev name_of : Outcome (Option Bytes) → Option Bytes
name_of (ok x) = x
name_of (err n) = none
name_of fault = none

abbrev if_positive : ℕ → Bytes → Option Bytes
if_positive v x = if leb 1 v then some x else none

-- The value, where the argument is one that the operation takes.
abbrev pub written : Operation → Option Bytes
written (link_flag k v) = some v
written (local_address k v) = some v
written (network_section k v) = some v
written (network_section_bool k b) = some (bool_to_str b)
written (dhcp4_client_identifier v) = name_of (enum_to_name dhcp_client_identifier v)
written (ipv6_generation_mode v) = name_of (enum_to_name ipv6_link_local_address_gen_type v)
written (ipv6_dad v) = some (print_int v)
written (mtu v) = if_positive v (print_uint (v % 2 ^ 32))
written (group v) = if_positive v (print_uint (v % 2 ^ 32))
written (ipv6_mtu v) = if_positive v (print_int (v % 2 ^ 32))
written (client_iaid kind v) = some v
written (rf_online v) = some v
written (act_policy v) = some v

name_of-some : (m : Outcome (Option Bytes)) (x : Bytes) → name_of m ≡ some x → m ≡ ok (some x)
name_of-some (ok y) x e = ap ok e
name_of-some (err n) x e = cc e
name_of-some fault x e = cc e

positive :
    {S R : Type 0} (f : Option Bytes → S → R) (bad : S → R) (v : ℕ) (t x : Bytes) (st : S)
    → if_positive v t ≡ some x
    → (if leb 1 v then f (some t) else bad) st ≡ f (some x) st
positive f bad v t x st e = elim (Bool-cases (leb 1 v)) [
  | inl above ↦ rw above (ap (λ y. f y st) (rw above at e))
  | inr below ↦ absurd (no_value (rw below at e))
]
  where
    no_value : none ≢ some x
    no_value e = cc e

named :
    (fs : Files) (sys : System fs) (g : Glib) (t : Bytes × Bytes) (m : Outcome (Option Bytes))
    (p : IfNameIndex) (x : Bytes) (st : fs.State)
    → m ≡ ok (some x)
    → edit_link fs sys g p
        (λ network. ◌>>=◌ fs (pure fs m) λ v. set_config_file_str fs g network t.0 t.1 v)
        st
      ≡ set_link fs sys g t.0 t.1 (some x) p st
unfolding set_link
named fs sys g t m p x st e =
    ap
      (λ n.
        edit_link fs sys g p
          (λ network. ◌>>=◌ fs (pure fs n) λ v. set_config_file_str fs g network t.0 t.1 v) st)
      e

run-set_link :
    (fs : Files) (sys : System fs) (g : Glib) (op : Operation) (p : IfNameIndex) (x : Bytes)
    (st : fs.State)
    → written op ≡ some x
    → run fs sys g op p st ≡ set_link fs sys g (target op).0 (target op).1 (some x) p st
unfolding set_link edit_link manager_set_link_flag manager_set_link_local_address
    manager_set_network_section manager_set_network_section_bool
    manager_set_link_dhcp4_client_identifier
    manager_set_link_ipv6_link_local_address_generation_mode manager_set_link_ipv6_dad
    manager_set_link_mtu manager_set_link_group manager_link_set_network_ipv6_mtu
    manager_set_link_dhcp_client_iaid manager_set_link_rf_online manager_set_link_act_policy
    set_config_file_str set_config_file_int set_config_file_bool
run-set_link fs sys g (link_flag k v) p x st e =
    ap (λ y. set_link fs sys g (target (link_flag k v)).0 (target (link_flag k v)).1 y p st) e
run-set_link fs sys g (local_address k v) p x st e =
    ap (λ y. set_link fs sys g (target (local_address k v)).0 (target (local_address k v)).1 y p st)
      e
run-set_link fs sys g (network_section k v) p x st e =
    ap
      (λ y.
        set_link fs sys g (target (network_section k v)).0 (target (network_section k v)).1 y p st)
      e
run-set_link fs sys g (network_section_bool k b) p x st e =
    ap
      (λ y.
        set_link fs sys g (target (network_section_bool k b)).0
          (target (network_section_bool k b)).1 y p st)
      e
run-set_link fs sys g (dhcp4_client_identifier v) p x st e =
    named fs sys g (target (dhcp4_client_identifier v)) (enum_to_name dhcp_client_identifier v) p x
      st (name_of-some (enum_to_name dhcp_client_identifier v) x e)
run-set_link fs sys g (ipv6_generation_mode v) p x st e =
    named fs sys g (target (ipv6_generation_mode v))
      (enum_to_name ipv6_link_local_address_gen_type v) p x st
      (name_of-some (enum_to_name ipv6_link_local_address_gen_type v) x e)
run-set_link fs sys g (ipv6_dad v) p x st e =
    ap (λ y. set_link fs sys g (target (ipv6_dad v)).0 (target (ipv6_dad v)).1 y p st) e
run-set_link fs sys g (mtu v) p x st e =
    positive (λ y. set_link fs sys g (target (mtu v)).0 (target (mtu v)).1 y p) (pure fs fault) v
      (print_uint (v % 2 ^ 32)) x st e
run-set_link fs sys g (group v) p x st e =
    positive (λ y. set_link fs sys g (target (group v)).0 (target (group v)).1 y p) (pure fs fault)
      v (print_uint (v % 2 ^ 32)) x st e
run-set_link fs sys g (ipv6_mtu v) p x st e =
    positive (λ y. set_link fs sys g (target (ipv6_mtu v)).0 (target (ipv6_mtu v)).1 y p)
      (pure fs fault) v (print_int (v % 2 ^ 32)) x st e
run-set_link fs sys g (client_iaid kind v) p x st e =
    ap
      (λ y.
        set_link fs sys g (target (client_iaid kind v)).0 (target (client_iaid kind v)).1 y p st)
      e
run-set_link fs sys g (rf_online v) p x st e =
    ap (λ y. set_link fs sys g (target (rf_online v)).0 (target (rf_online v)).1 y p st) e
run-set_link fs sys g (act_policy v) p x st e =
    ap (λ y. set_link fs sys g (target (act_policy v)).0 (target (act_policy v)).1 y p st) e

module _ (fs : Files) (sys : System fs) (files : FilesLaws fs) (system : SystemLaws fs sys)
    (path : Bytes) (ready : IsReady fs sys path) (g : Glib) (laws : GlibLaws g) where
  -- `set_link` on a link whose .network file networkd names, and this program wrote and can write,
  -- succeeds when the names and the value can be written; then
  -- `parse_config_file` reads from the file the value for the key, and for every other section and key
  -- what it read before.
  pub parse_config_file-set_link :
      (p : IfNameIndex) (section k x : Bytes) (ss : List Section) (st : fs.State)
      → IsManaged fs g p path st
      → IsPrintableEdit section k x
      → IsOwnFile fs files path ready.writable g ss st
      → (st' : fs.State) × (set_link fs sys g section k (some x) p st ≡ (ok tt, st'))
        × ((section' k' : Bytes)
            → (parse_config_file fs g path section' k' st').0 ≡ (
                if streq section section' && streq k k'
                then ok x
                else (parse_config_file fs g path section' k' st).0))
  unfolding set_link edit_link
  parse_config_file-set_link p section k x ss st m n own =
      let (s₁, done, reads) =
        parse_config_file-set_config_file_str fs files path ready.writable g laws section k x ss st
          n own in
      let s₂ = (sys.network_reload s₁).1 in
      let kept = system.reload_keeps path s₁ in
      let reloaded : sys.network_reload s₁ ≡ (ok tt, s₂) = ap (λ r. (r, s₂)) (ready.reloaded s₁) in
      (
        s₂,
        rw (create_or_parse-found fs sys g laws p path st m) (rw done reloaded),
        λ section' k'.
            parse_config_file-same fs g path section' k' s₁ s₂ kept.0 kept.1 ∙ reads section' k',
      )

  -- For each operation that sets one setting, with an argument that it takes, on a link whose .network
  -- file networkd names, and this program wrote and can write: when the names and the value can be
  -- written, the operation succeeds; then `parse_config_file` reads from the file the operation's value
  -- for its section and key, and for every other section and key what it read before.
  pub parse_config_file-run :
      (op : Operation) (p : IfNameIndex) (x : Bytes) (ss : List Section) (st : fs.State)
      → written op ≡ some x
      → IsManaged fs g p path st
      → IsPrintableEdit (target op).0 (target op).1 x
      → IsOwnFile fs files path ready.writable g ss st
      → (st' : fs.State) × (run fs sys g op p st ≡ (ok tt, st'))
        × ((section' k' : Bytes)
            → (parse_config_file fs g path section' k' st').0 ≡ (
                if streq (target op).0 section' && streq (target op).1 k'
                then ok x
                else (parse_config_file fs g path section' k' st).0))
  parse_config_file-run op p x ss st e m n own =
      let (st', done, reads) =
        parse_config_file-set_link p (target op).0 (target op).1 x ss st m n own in
      (st', run-set_link fs sys g op p x st e ∙ done, reads)
