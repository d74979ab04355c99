-- ===== src/StringUtil/Witnesses.antt =====
-- `rstrip` at a line with a break at its end.
use network_config_manager.Base.{codes}
use network_config_manager.StringUtil.{rstrip}
use network_config_manager.StringUtil.Strip.{Stripped, rstrip-Stripped}

rstrip-Stripped_example : Stripped (codes "Name=eth0 \n") (rstrip (codes "Name=eth0 \n"))
rstrip-Stripped_example = rstrip-Stripped (codes "Name=eth0 \n")
