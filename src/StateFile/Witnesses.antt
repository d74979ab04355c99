-- ===== src/StateFile/Witnesses.antt =====
-- The theorem on state files for one of networkd's.
use network_config_manager.Base.{◌≡◌, refl, List, [], ◌∷◌, codes, All, arith, if◌then◌else◌}
use network_config_manager.CLib.{isspace}
use network_config_manager.Glib.Model.{model, model-laws}
use network_config_manager.Outcome.{fault, err, enoent}
use network_config_manager.StateFile.{parse_state_contents}
use network_config_manager.StateFile.Reading.{
  StateEntry, IsStateEntry, render_state, distinct, found, parse_state_contents-render_state,
}

abbrev routable : List StateEntry
routable = (codes "OPER_STATE", codes "up") ∷ (codes "DNS", codes "10.0.0.1") ∷ []

routable-All : All IsStateEntry routable
unfolding isspace
routable-All = (
  record {
    key_starts = (refl, omega arith);
    key_line = omega arith;
    key_lacks_escape = omega arith;
    key_lacks_equals = omega arith;
    value_line = omega arith;
    value_lacks_escape = omega arith;
    value_ends = refl;
  },
  (
    record {
      key_starts = (refl, omega arith);
      key_line = omega arith;
      key_lacks_escape = omega arith;
      key_lacks_equals = omega arith;
      value_line = omega arith;
      value_lacks_escape = omega arith;
      value_ends = refl;
    },
    tt,
  ),
)

parse_state_contents-render_state_example :
    parse_state_contents model (render_state routable) (codes "DNS")
    ≡ (if distinct routable then found routable (codes "DNS") (err enoent) else fault)
parse_state_contents-render_state_example =
    parse_state_contents-render_state model model-laws routable (codes "DNS") routable-All
