-- ===== src/DeviceLink/Settings.antt =====
-- The table of `src/manager/netdev-link.c` and what `netdev_link_configure` writes into [Link].
use network_config_manager.Base.{
  ℕ, List, [], ◌∷◌, ◌++◌, Bytes, codes, Option, none, some, ◌%◌, ◌^◌, leb,
}
use network_config_manager.CLib.Strtol.{Long, to_unsigned}
use network_config_manager.StringUtil.{bool_to_str}
use network_config_manager.Settings.{when, is_set, is_true, is_positive}
use network_config_manager.ConfFile.Ctl.{Config}
use network_config_manager.DeviceLink.{NetDevLink}

-- A value goes through `set_config_file_str` or, with the bits of its number, through `set_config_file_int`.
pub data LinkValue : Type 0 where
  text : Bytes → LinkValue
  int : ℕ → LinkValue

module _ (name : Bytes) where
  abbrev pub ctl_str : Option Bytes → List (Bytes × LinkValue)
  ctl_str none = []
  ctl_str (some x) = (name, text x) ∷ []

  abbrev pub ctl_bool : Long → List (Bytes × LinkValue)
  ctl_bool v = when (is_set v) ((name, text (bool_to_str (is_true v))) ∷ [])

  abbrev pub ctl_int : Long → List (Bytes × LinkValue)
  ctl_int v = when (is_positive v) ((name, int (to_unsigned (2 ^ 32) v)) ∷ [])

  abbrev pub ctl_unsigned : ℕ → List (Bytes × LinkValue)
  ctl_unsigned v = when (leb 1 v) ((name, int (v % 2 ^ 32)) ∷ [])

abbrev pub link_ctl_to_config_table : List Config
link_ctl_to_config_table =
    (codes "alias", codes "Alias")
    ∷ (codes "desc", codes "Description")
    ∷ (codes "macpolicy", codes "MACAddressPolicy")
    ∷ (codes "macaddr", codes "MACAddress")
    ∷ (codes "namepolicy", codes "NamePolicy")
    ∷ (codes "name", codes "Name")
    ∷ (codes "altnamepolicy", codes "AlternativeNamesPolicy")
    ∷ (codes "altname", codes "AlternativeName")
    ∷ (codes "mtu", codes "MTUBytes")
    ∷ (codes "bps", codes "BitsPerSecond")
    ∷ (codes "duplex", codes "Duplex")
    ∷ (codes "wol", codes "WakeOnLan")
    ∷ (codes "wolp", codes "WakeOnLanPassword")
    ∷ (codes "port", codes "Port")
    ∷ (codes "advertise", codes "Advertise")
    ∷ (codes "auton", codes "AutoNegotiation")
    ∷ (codes "rxcsumo", codes "ReceiveChecksumOffload")
    ∷ (codes "txcsumo", codes "TransmitChecksumOffload")
    ∷ (codes "tso", codes "TCPSegmentationOffload")
    ∷ (codes "t6so", codes "TCP6SegmentationOffload")
    ∷ (codes "gso", codes "GenericSegmentationOffload")
    ∷ (codes "grxo", codes "GenericReceiveOffload")
    ∷ (codes "grxoh", codes "GenericReceiveOffloadHardware")
    ∷ (codes "lrxo", codes "LargeReceiveOffload")
    ∷ (codes "rxvtha", codes "ReceiveVLANCTAGHardwareAcceleration")
    ∷ (codes "txvtha", codes "TransmitVLANCTAGHardwareAcceleration")
    ∷ (codes "rxvtf", codes "ReceiveVLANCTAGFilter")
    ∷ (codes "txvstha", codes "TransmitVLANSTAGHardwareAcceleration")
    ∷ (codes "ntf", codes "NTupleFilter")
    ∷ (codes "uarxc", codes "UseAdaptiveRxCoalesce")
    ∷ (codes "uatxc", codes "UseAdaptiveTxCoalesce")
    ∷ (codes "gsob", codes "GenericSegmentOffloadMaxBytes")
    ∷ (codes "gsos", codes "GenericSegmentOffloadMaxSegments")
    ∷ (codes "rxch", codes "RxChannels")
    ∷ (codes "txch", codes "TxChannels")
    ∷ (codes "otrch", codes "OtherChannels")
    ∷ (codes "combch", codes "CombinedChannels")
    ∷ (codes "rxbuf", codes "RxBufferSize")
    ∷ (codes "rxminbuf", codes "RxMiniBufferSize")
    ∷ (codes "rxjumbobuf", codes "RxJumboBufferSize")
    ∷ (codes "txbuf", codes "TxBufferSize")
    ∷ (codes "txq", codes "TransmitQueues")
    ∷ (codes "rxq", codes "ReceiveQueues")
    ∷ (codes "txqlen", codes "TransmitQueueLength")
    ∷ (codes "rxflowctrl", codes "RxFlowControl")
    ∷ (codes "txflowctrl", codes "TxFlowControl")
    ∷ (codes "autoflowctrl", codes "AutoNegotiationFlowControl")
    ∷ (codes "rxcs", codes "RxCoalesceSec")
    ∷ (codes "rxcsirq", codes "RxCoalesceIrqSec")
    ∷ (codes "rxcslow", codes "RxCoalesceLowSec")
    ∷ (codes "rxcshigh", codes "RxCoalesceHighSec")
    ∷ (codes "txcs", codes "TxCoalesceSec")
    ∷ (codes "txcsirq", codes "TxCoalesceIrqSec")
    ∷ (codes "txcslow", codes "TxCoalesceLowSec")
    ∷ (codes "txcshigh", codes "TxCoalesceHighSec")
    ∷ (codes "rxmcf", codes "RxMaxCoalescedFrames")
    ∷ (codes "rxmcfirq", codes "RxMaxCoalescedIrqFrames")
    ∷ (codes "rxmcflow", codes "RxMaxCoalescedLowFrames")
    ∷ (codes "rxmcfhigh", codes "RxMaxCoalescedHighFrames")
    ∷ (codes "txmcf", codes "TxMaxCoalescedFrames")
    ∷ (codes "txmcfirq", codes "TxMaxCoalescedIrqFrames")
    ∷ (codes "txmcflow", codes "TxMaxCoalescedLowFrames")
    ∷ (codes "txmcfhigh", codes "TxMaxCoalescedHighFrames")
    ∷ (codes "cprlow", codes "CoalescePacketRateLow")
    ∷ (codes "cprhigh", codes "CoalescePacketRateHigh")
    ∷ (codes "cprsis", codes "CoalescePacketRateSampleIntervalSec")
    ∷ (codes "sbcs", codes "StatisticsBlockCoalesceSec")
    ∷ []

unfoldable pub name_entries : NetDevLink → List (Bytes × LinkValue)
name_entries n =
    ctl_str (codes "alias") n.alias
    ++ ctl_str (codes "desc") n.desc
    ++ ctl_str (codes "macpolicy") n.macpolicy
    ++ ctl_str (codes "macaddr") n.macaddr
    ++ ctl_str (codes "namepolicy") n.namepolicy
    ++ ctl_str (codes "name") n.name
    ++ ctl_str (codes "altnamepolicy") n.altnamepolicy
    ++ ctl_str (codes "altname") n.altname

unfoldable pub device_entries : NetDevLink → List (Bytes × LinkValue)
device_entries n =
    ctl_str (codes "mtu") n.mtu
    ++ ctl_str (codes "bps") n.bps
    ++ ctl_str (codes "duplex") n.duplex
    ++ ctl_str (codes "wol") n.wol
    ++ ctl_str (codes "wolp") n.wolp
    ++ ctl_str (codes "port") n.port
    ++ ctl_str (codes "advertise") n.advertise

unfoldable pub offload_entries : NetDevLink → List (Bytes × LinkValue)
offload_entries n =
    ctl_bool (codes "auton") n.auto_nego
    ++ ctl_bool (codes "rxcsumo") n.rx_csum_off
    ++ ctl_bool (codes "txcsumo") n.tx_csum_off
    ++ ctl_bool (codes "tso") n.tcp_seg_off
    ++ ctl_bool (codes "t6so") n.tcp6_seg_off
    ++ ctl_bool (codes "gso") n.gen_seg_off
    ++ ctl_bool (codes "grxo") n.gen_rx_off
    ++ ctl_bool (codes "grxoh") n.gen_rx_off_hw
    ++ ctl_bool (codes "lrxo") n.large_rx_off
    ++ ctl_bool (codes "rxvtha") n.rx_vlan_ctag_hw_acl
    ++ ctl_bool (codes "txvtha") n.tx_vlan_ctag_hw_acl
    ++ ctl_bool (codes "rxvtf") n.rx_vlan_ctag_fltr
    ++ ctl_bool (codes "txvstha") n.tx_vlan_stag_hw_acl
    ++ ctl_bool (codes "ntf") n.n_tpl_fltr
    ++ ctl_bool (codes "uarxc") n.use_adpt_rx_coal
    ++ ctl_bool (codes "uatxc") n.use_adpt_tx_coal

unfoldable pub flow_entries : NetDevLink → List (Bytes × LinkValue)
flow_entries n =
    ctl_bool (codes "txflowctrl") n.tx_flow_ctrl
    ++ ctl_bool (codes "rxflowctrl") n.rx_flow_ctrl
    ++ ctl_bool (codes "autoflowctrl") n.auto_flow_ctrl

unfoldable pub channel_entries : NetDevLink → List (Bytes × LinkValue)
channel_entries n =
    ctl_str (codes "rxch") n.rx_chnl
    ++ ctl_str (codes "txch") n.tx_chnl
    ++ ctl_str (codes "otrch") n.otr_chnl
    ++ ctl_str (codes "combch") n.comb_chnl
    ++ ctl_str (codes "rxbuf") n.rx_buf
    ++ ctl_str (codes "rxminbuf") n.rx_mini_buf
    ++ ctl_str (codes "rxjumbobuf") n.rx_jumbo_buf
    ++ ctl_str (codes "txbuf") n.tx_buf

unfoldable pub queue_entries : NetDevLink → List (Bytes × LinkValue)
queue_entries n =
    ctl_int (codes "txq") n.tx_queues
    ++ ctl_int (codes "rxq") n.rx_queues
    ++ ctl_unsigned (codes "txqlen") n.tx_queue_len
    ++ ctl_int (codes "gsob") n.gen_seg_off_bytes
    ++ ctl_int (codes "gsos") n.gen_seg_off_seg

unfoldable pub coalesce_entries : NetDevLink → List (Bytes × LinkValue)
coalesce_entries n =
    ctl_str (codes "rxcs") n.rx_coal
    ++ ctl_str (codes "rxcsirq") n.rx_coal_irq
    ++ ctl_str (codes "rxcslow") n.rx_coal_low
    ++ ctl_str (codes "rxcshigh") n.rx_coal_high
    ++ ctl_str (codes "txcs") n.tx_coal
    ++ ctl_str (codes "txcsirq") n.tx_coal_irq
    ++ ctl_str (codes "txcslow") n.tx_coal_low
    ++ ctl_str (codes "txcshigh") n.tx_coal_high

unfoldable pub frame_entries : NetDevLink → List (Bytes × LinkValue)
frame_entries n =
    ctl_str (codes "rxmcf") n.rx_coald_frames
    ++ ctl_str (codes "rxmcfirq") n.rx_coald_irq_frames
    ++ ctl_str (codes "rxmcflow") n.rx_coald_low_frames
    ++ ctl_str (codes "rxmcfhigh") n.rx_coald_high_frames
    ++ ctl_str (codes "txmcf") n.tx_coald_frames
    ++ ctl_str (codes "txmcfirq") n.tx_coald_irq_frames
    ++ ctl_str (codes "txmcflow") n.tx_coald_low_frames
    ++ ctl_str (codes "txmcfhigh") n.tx_coald_high_frames

unfoldable pub rate_entries : NetDevLink → List (Bytes × LinkValue)
rate_entries n =
    ctl_str (codes "cprlow") n.coal_pkt_rate_low
    ++ ctl_str (codes "cprhigh") n.coal_pkt_rate_high
    ++ ctl_str (codes "cprsis") n.coal_pkt_rate_smpl_itrvl
    ++ ctl_str (codes "sbcs") n.sts_blk_coal

unfoldable pub link_entries : NetDevLink → List (Bytes × LinkValue)
link_entries n =
    name_entries n
    ++ device_entries n
    ++ offload_entries n
    ++ flow_entries n
    ++ channel_entries n
    ++ queue_entries n
    ++ coalesce_entries n
    ++ frame_entries n
    ++ rate_entries n
