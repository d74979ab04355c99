-- ===== src/DeviceLink/Overlay.antt =====
-- What the settings of a .link file leave for a reader.
use network_config_manager.Base.{
  ◌≡◌, refl, ◌&&◌, List, [], ◌∷◌, ◌++◌, Bytes, codes, Option, none, some, if◌then◌else◌,
}
use network_config_manager.CLib.{streq}
use network_config_manager.Outcome.{Outcome, ok}
use network_config_manager.KeyFile.Numbers.{print_int}
use network_config_manager.ConfFile.Ctl.{config_manager_new, ctl_to_config}
use network_config_manager.DeviceLink.Settings.{LinkValue, text, int, link_ctl_to_config_table}

abbrev pub value_of_link : LinkValue → Bytes
value_of_link (text x) = x
value_of_link (int v) = print_int v

abbrev pub key_of : Bytes → Option Bytes
key_of name = ctl_to_config (config_manager_new link_ctl_to_config_table) name

abbrev pub or_read : Option Bytes → LinkValue → Bytes → Bytes → Outcome Bytes → Outcome Bytes
or_read none v section k old = old
or_read (some key) v section k old =
    if streq (codes "Link") section && streq key k then ok (value_of_link v) else old

-- What the settings of [Link] say, each before those behind it.
unfoldable pub link_overlay :
    List (Bytes × LinkValue) → Bytes → Bytes → Outcome Bytes → Outcome Bytes
link_overlay [] section k old = old
link_overlay ((name, v) ∷ es) section k old =
    link_overlay es section k (or_read (key_of name) v section k old)

pub link_overlay-append :
    (es fs : List (Bytes × LinkValue)) (section k : Bytes) (old : Outcome Bytes)
    → link_overlay (es ++ fs) section k old
      ≡ link_overlay fs section k (link_overlay es section k old)
unfolding link_overlay
link_overlay-append [] fs section k old = refl
link_overlay-append ((name, v) ∷ es) fs section k old =
    link_overlay-append es fs section k (or_read (key_of name) v section k old)
