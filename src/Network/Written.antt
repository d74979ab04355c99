-- ===== src/Network/Written.antt =====
-- What `generate_network_config` leaves in the key file: behind the settings and the appended
-- sections, every other section reads as the settings say.
use network_config_manager.Base.{◌≡◌, refl, ap, ◌∙◌, false, List, Bytes, All}
use network_config_manager.Outcome.{Outcome, ok}
use network_config_manager.KeyFile.{KeyFile, find_in, key_file_parse_str}
use network_config_manager.KeyFile.Put.{IsIntact, IsCounted}
use network_config_manager.ConfFile.{Files}
use network_config_manager.ConfFile.EndToEnd.{IsWritable}
use network_config_manager.NetworkUtil.{Inet}
use network_config_manager.Settings.{Setting}
use network_config_manager.Settings.Overlay.{
  HasText, overlay, put_all, parse_str-put_all, Written, write_settings-Written,
}
use network_config_manager.Network.{Network}
use network_config_manager.Network.Settings.{front_settings, middle_settings, back_settings}
use network_config_manager.Network.Generate.{fill_network}
use network_config_manager.Network.Appended.{is_listed}
use network_config_manager.Network.Lists.{append_sections-Appends, append_leases-Appends}

-- Every setting of the network has its text.
pub record IsComplete (inet : Inet) (n : Network) : Type 0 where
  pub front_texts : All HasText (front_settings inet n)
  pub middle_texts : All HasText (middle_settings inet n)
  pub back_texts : All HasText (back_settings n)

-- What a reader finds behind the three runs of settings.
abbrev pub network_overlay : Inet → Network → Bytes → Bytes → Outcome Bytes → Outcome Bytes
network_overlay inet n section k old =
    overlay (back_settings n) section k
      (overlay (middle_settings inet n) section k (overlay (front_settings inet n) section k old))

pub record Filled (inet : Inet) (n : Network) (before after : KeyFile) : Type 0 where
  pub reads :
      (section k : Bytes)
      → is_listed section ≡ false
      → key_file_parse_str after section k
        ≡ network_overlay inet n section k (key_file_parse_str before section k)
  pub name_kept : after.name ≡ before.name
  pub counted : IsCounted before → IsCounted after
  pub intact : IsIntact after.sections

pub parse_str-same :
    (a b : KeyFile) (section k : Bytes)
    → find_in a.sections section k ≡ find_in b.sections section k
    → key_file_parse_str a section k ≡ key_file_parse_str b section k
unfolding key_file_parse_str
parse_str-same a b section k e = rw (e, key_file_parse_str) refl

pub parse_str-Written :
    (a b : KeyFile) (ss : List Setting) (section k : Bytes)
    → Written a b ss
    → key_file_parse_str b section k ≡ overlay ss section k (key_file_parse_str a section k)
parse_str-Written a b ss section k w =
    parse_str-same b (record a { sections = put_all a.sections ss }) section k
      (ap (λ s. find_in s section k) w.sections_are)
    ∙ parse_str-put_all a a.sections ss section k

module _ (fs : Files) (path : Bytes) (w : IsWritable fs path) (inet : Inet) where
  -- On a key file of a path that can be written, with no freed value, the settings and sections of a
  -- network whose settings all have their texts are written without an error. Then every section
  -- that does not come once for each address, route, rule, virtual function or lease reads as the
  -- last setting of a key says, or as before; the file's name is kept, its count of sections stays
  -- right if it was, and no value is freed.
  pub fill_network-Filled :
      (n : Network) (kf : KeyFile) (st : fs.State)
      → kf.name ≡ path
      → IsIntact kf.sections
      → IsComplete inet n
      → (after : KeyFile) × (st' : fs.State) × (fill_network fs inet n kf st ≡ (ok after, st'))
        × Filled inet n kf after
  unfolding fill_network
  fill_network-Filled n kf st named h c =
      let (k₁, s₁, d₁, w₁) =
        write_settings-Written fs path w kf (front_settings inet n) st named h c.front_texts in
      let (k₂, d₂, a₂) = append_sections-Appends inet k₁ n in
      let (k₃, s₃, d₃, w₃) =
        write_settings-Written fs path w k₂ (middle_settings inet n) s₁
          (a₂.name_kept ∙ w₁.name_kept ∙ named) (a₂.intact w₁.intact) c.middle_texts in
      let (k₄, d₄, a₄) = append_leases-Appends inet k₃ n in
      let (k₅, s₅, d₅, w₅) =
        write_settings-Written fs path w k₄ (back_settings n) s₃
          (a₄.name_kept ∙ w₃.name_kept ∙ a₂.name_kept ∙ w₁.name_kept ∙ named) (a₄.intact w₃.intact)
          c.back_texts in
      (
        k₅,
        s₅,
        rw d₁ (rw d₂ (rw d₃ (rw d₄ d₅))),
        record {
          reads = λ section k l.
              parse_str-Written k₄ k₅ (back_settings n) section k w₅
              ∙ ap (overlay (back_settings n) section k) (
                  parse_str-same k₄ k₃ section k (a₄.reads section k l)
                  ∙ parse_str-Written k₂ k₃ (middle_settings inet n) section k w₃
                  ∙ ap (overlay (middle_settings inet n) section k) (
                      parse_str-same k₂ k₁ section k (a₂.reads section k l)
                      ∙ parse_str-Written kf k₁ (front_settings inet n) section k w₁));
          name_kept = w₅.name_kept ∙ a₄.name_kept ∙ w₃.name_kept ∙ a₂.name_kept ∙ w₁.name_kept;
          counted = λ x. w₅.counted (a₄.counted (w₃.counted (a₂.counted (w₁.counted x))));
          intact = w₅.intact;
        },
      )
