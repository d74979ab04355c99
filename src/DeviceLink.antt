-- ===== src/DeviceLink.antt =====
-- The settings of a .link file, as `src/manager/netdev-link.h` has them, and `netdev_link_new` of
-- `src/manager/netdev-link.c`.
pub mod Settings
pub mod Overlay
pub mod Documented
pub mod Says
pub mod Generate
pub mod Reads
mod Witnesses
use network_config_manager.Base.{ℕ, false, Bytes, List, Option, none}
use network_config_manager.CLib.Strtol.{Long}
use network_config_manager.Settings.{unset}
use network_config_manager.Network.{ParserType, yaml}

pub record NetDevLink : Type 0 where
  pub parser_type : ParserType
  pub driver : Option (List Bytes)
  pub ifname : Option Bytes
  pub alias : Option Bytes
  pub desc : Option Bytes
  pub macpolicy : Option Bytes
  pub macaddr : Option Bytes
  pub namepolicy : Option Bytes
  pub name : Option Bytes
  pub altnamepolicy : Option Bytes
  pub altname : Option Bytes
  pub mtu : Option Bytes
  pub bps : Option Bytes
  pub duplex : Option Bytes
  pub wol : Option Bytes
  pub wolp : Option Bytes
  pub port : Option Bytes
  pub advertise : Option Bytes
  pub rx_chnl : Option Bytes
  pub tx_chnl : Option Bytes
  pub otr_chnl : Option Bytes
  pub comb_chnl : Option Bytes
  pub rx_coal : Option Bytes
  pub rx_coal_irq : Option Bytes
  pub rx_coal_low : Option Bytes
  pub rx_coal_high : Option Bytes
  pub tx_coal : Option Bytes
  pub tx_coal_irq : Option Bytes
  pub tx_coal_low : Option Bytes
  pub tx_coal_high : Option Bytes
  pub rx_coald_frames : Option Bytes
  pub rx_coald_irq_frames : Option Bytes
  pub rx_coald_low_frames : Option Bytes
  pub rx_coald_high_frames : Option Bytes
  pub tx_coald_frames : Option Bytes
  pub tx_coald_irq_frames : Option Bytes
  pub tx_coald_low_frames : Option Bytes
  pub tx_coald_high_frames : Option Bytes
  pub coal_pkt_rate_low : Option Bytes
  pub coal_pkt_rate_high : Option Bytes
  pub coal_pkt_rate_smpl_itrvl : Option Bytes
  pub sts_blk_coal : Option Bytes
  pub rx_buf : Option Bytes
  pub rx_mini_buf : Option Bytes
  pub rx_jumbo_buf : Option Bytes
  pub tx_buf : Option Bytes
  pub auto_nego : Long
  pub rx_csum_off : Long
  pub tx_csum_off : Long
  pub tcp_seg_off : Long
  pub tcp6_seg_off : Long
  pub gen_seg_off : Long
  pub gen_rx_off : Long
  pub gen_rx_off_hw : Long
  pub large_rx_off : Long
  pub rx_vlan_ctag_hw_acl : Long
  pub tx_vlan_ctag_hw_acl : Long
  pub rx_vlan_ctag_fltr : Long
  pub tx_vlan_stag_hw_acl : Long
  pub n_tpl_fltr : Long
  pub use_adpt_rx_coal : Long
  pub use_adpt_tx_coal : Long
  pub tx_flow_ctrl : Long
  pub rx_flow_ctrl : Long
  pub auto_flow_ctrl : Long
  pub tx_queues : Long
  pub rx_queues : Long
  pub gen_seg_off_bytes : Long
  pub gen_seg_off_seg : Long
  pub tx_queue_len : ℕ

abbrev zero_long : Long
zero_long = record { neg = false; size = 0 }

-- Numbers and pointers that are not named are 0, the first parser or NULL.
abbrev pub netdev_link_new : NetDevLink
netdev_link_new = record {
  parser_type = yaml;
  driver = none;
  ifname = none;
  alias = none;
  desc = none;
  macpolicy = none;
  macaddr = none;
  namepolicy = none;
  name = none;
  altnamepolicy = none;
  altname = none;
  mtu = none;
  bps = none;
  duplex = none;
  wol = none;
  wolp = none;
  port = none;
  advertise = none;
  rx_chnl = none;
  tx_chnl = none;
  otr_chnl = none;
  comb_chnl = none;
  rx_coal = none;
  rx_coal_irq = none;
  rx_coal_low = none;
  rx_coal_high = none;
  tx_coal = none;
  tx_coal_irq = none;
  tx_coal_low = none;
  tx_coal_high = none;
  rx_coald_frames = none;
  rx_coald_irq_frames = none;
  rx_coald_low_frames = none;
  rx_coald_high_frames = none;
  tx_coald_frames = none;
  tx_coald_irq_frames = none;
  tx_coald_low_frames = none;
  tx_coald_high_frames = none;
  coal_pkt_rate_low = none;
  coal_pkt_rate_high = none;
  coal_pkt_rate_smpl_itrvl = none;
  sts_blk_coal = none;
  rx_buf = none;
  rx_mini_buf = none;
  rx_jumbo_buf = none;
  tx_buf = none;
  auto_nego = unset;
  rx_csum_off = unset;
  tx_csum_off = unset;
  tcp_seg_off = unset;
  tcp6_seg_off = unset;
  gen_seg_off = unset;
  gen_rx_off = unset;
  gen_rx_off_hw = unset;
  large_rx_off = unset;
  rx_vlan_ctag_hw_acl = unset;
  tx_vlan_ctag_hw_acl = unset;
  rx_vlan_ctag_fltr = unset;
  tx_vlan_stag_hw_acl = unset;
  n_tpl_fltr = unset;
  use_adpt_rx_coal = unset;
  use_adpt_tx_coal = unset;
  tx_flow_ctrl = unset;
  rx_flow_ctrl = unset;
  auto_flow_ctrl = unset;
  tx_queues = zero_long;
  rx_queues = zero_long;
  gen_seg_off_bytes = zero_long;
  gen_seg_off_seg = zero_long;
  tx_queue_len = 0;
}
