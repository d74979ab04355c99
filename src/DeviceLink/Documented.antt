-- ===== src/DeviceLink/Documented.antt =====
-- What a .link file says of a device: for each key of [Link] the field that decides it, and when it is
-- there.
use network_config_manager.Base.{List, [], ◌∷◌, ◌++◌, codes, leb}
use network_config_manager.Settings.{is_positive}
use network_config_manager.Settings.Table.{Row, row, flag, only, signed}
use network_config_manager.DeviceLink.{NetDevLink}

abbrev pub name_rows : NetDevLink → List Row
name_rows n =
    row (codes "Link") (codes "Alias") n.alias
    ∷ row (codes "Link") (codes "Description") n.desc
    ∷ row (codes "Link") (codes "MACAddressPolicy") n.macpolicy
    ∷ row (codes "Link") (codes "MACAddress") n.macaddr
    ∷ row (codes "Link") (codes "NamePolicy") n.namepolicy
    ∷ row (codes "Link") (codes "Name") n.name
    ∷ row (codes "Link") (codes "AlternativeNamesPolicy") n.altnamepolicy
    ∷ row (codes "Link") (codes "AlternativeName") n.altname
    ∷ []

abbrev pub device_rows : NetDevLink → List Row
device_rows n =
    row (codes "Link") (codes "MTUBytes") n.mtu
    ∷ row (codes "Link") (codes "BitsPerSecond") n.bps
    ∷ row (codes "Link") (codes "Duplex") n.duplex
    ∷ row (codes "Link") (codes "WakeOnLan") n.wol
    ∷ row (codes "Link") (codes "WakeOnLanPassword") n.wolp
    ∷ row (codes "Link") (codes "Port") n.port
    ∷ row (codes "Link") (codes "Advertise") n.advertise
    ∷ []

abbrev pub offload_rows : NetDevLink → List Row
offload_rows n =
    row (codes "Link") (codes "AutoNegotiation") (flag n.auto_nego)
    ∷ row (codes "Link") (codes "ReceiveChecksumOffload") (flag n.rx_csum_off)
    ∷ row (codes "Link") (codes "TransmitChecksumOffload") (flag n.tx_csum_off)
    ∷ row (codes "Link") (codes "TCPSegmentationOffload") (flag n.tcp_seg_off)
    ∷ row (codes "Link") (codes "TCP6SegmentationOffload") (flag n.tcp6_seg_off)
    ∷ row (codes "Link") (codes "GenericSegmentationOffload") (flag n.gen_seg_off)
    ∷ row (codes "Link") (codes "GenericReceiveOffload") (flag n.gen_rx_off)
    ∷ row (codes "Link") (codes "GenericReceiveOffloadHardware") (flag n.gen_rx_off_hw)
    ∷ row (codes "Link") (codes "LargeReceiveOffload") (flag n.large_rx_off)
    ∷ row (codes "Link") (codes "ReceiveVLANCTAGHardwareAcceleration") (flag n.rx_vlan_ctag_hw_acl)
    ∷ row (codes "Link") (codes "TransmitVLANCTAGHardwareAcceleration") (flag n.tx_vlan_ctag_hw_acl)
    ∷ row (codes "Link") (codes "ReceiveVLANCTAGFilter") (flag n.rx_vlan_ctag_fltr)
    ∷ row (codes "Link") (codes "TransmitVLANSTAGHardwareAcceleration") (flag n.tx_vlan_stag_hw_acl)
    ∷ row (codes "Link") (codes "NTupleFilter") (flag n.n_tpl_fltr)
    ∷ row (codes "Link") (codes "UseAdaptiveRxCoalesce") (flag n.use_adpt_rx_coal)
    ∷ row (codes "Link") (codes "UseAdaptiveTxCoalesce") (flag n.use_adpt_tx_coal)
    ∷ []

abbrev pub flow_rows : NetDevLink → List Row
flow_rows n =
    row (codes "Link") (codes "TxFlowControl") (flag n.tx_flow_ctrl)
    ∷ row (codes "Link") (codes "RxFlowControl") (flag n.rx_flow_ctrl)
    ∷ row (codes "Link") (codes "AutoNegotiationFlowControl") (flag n.auto_flow_ctrl)
    ∷ []

abbrev pub channel_rows : NetDevLink → List Row
channel_rows n =
    row (codes "Link") (codes "RxChannels") n.rx_chnl
    ∷ row (codes "Link") (codes "TxChannels") n.tx_chnl
    ∷ row (codes "Link") (codes "OtherChannels") n.otr_chnl
    ∷ row (codes "Link") (codes "CombinedChannels") n.comb_chnl
    ∷ row (codes "Link") (codes "RxBufferSize") n.rx_buf
    ∷ row (codes "Link") (codes "RxMiniBufferSize") n.rx_mini_buf
    ∷ row (codes "Link") (codes "RxJumboBufferSize") n.rx_jumbo_buf
    ∷ row (codes "Link") (codes "TxBufferSize") n.tx_buf
    ∷ []

abbrev pub queue_rows : NetDevLink → List Row
queue_rows n =
    row (codes "Link") (codes "TransmitQueues")
      (only (is_positive n.tx_queues) (signed n.tx_queues.size))
    ∷ row (codes "Link") (codes "ReceiveQueues")
        (only (is_positive n.rx_queues) (signed n.rx_queues.size))
    ∷ row (codes "Link") (codes "TransmitQueueLength")
        (only (leb 1 n.tx_queue_len) (signed n.tx_queue_len))
    ∷ row (codes "Link") (codes "GenericSegmentOffloadMaxBytes")
        (only (is_positive n.gen_seg_off_bytes) (signed n.gen_seg_off_bytes.size))
    ∷ row (codes "Link") (codes "GenericSegmentOffloadMaxSegments")
        (only (is_positive n.gen_seg_off_seg) (signed n.gen_seg_off_seg.size))
    ∷ []

abbrev pub coalesce_rows : NetDevLink → List Row
coalesce_rows n =
    row (codes "Link") (codes "RxCoalesceSec") n.rx_coal
    ∷ row (codes "Link") (codes "RxCoalesceIrqSec") n.rx_coal_irq
    ∷ row (codes "Link") (codes "RxCoalesceLowSec") n.rx_coal_low
    ∷ row (codes "Link") (codes "RxCoalesceHighSec") n.rx_coal_high
    ∷ row (codes "Link") (codes "TxCoalesceSec") n.tx_coal
    ∷ row (codes "Link") (codes "TxCoalesceIrqSec") n.tx_coal_irq
    ∷ row (codes "Link") (codes "TxCoalesceLowSec") n.tx_coal_low
    ∷ row (codes "Link") (codes "TxCoalesceHighSec") n.tx_coal_high
    ∷ []

abbrev pub frame_rows : NetDevLink → List Row
frame_rows n =
    row (codes "Link") (codes "RxMaxCoalescedFrames") n.rx_coald_frames
    ∷ row (codes "Link") (codes "RxMaxCoalescedIrqFrames") n.rx_coald_irq_frames
    ∷ row (codes "Link") (codes "RxMaxCoalescedLowFrames") n.rx_coald_low_frames
    ∷ row (codes "Link") (codes "RxMaxCoalescedHighFrames") n.rx_coald_high_frames
    ∷ row (codes "Link") (codes "TxMaxCoalescedFrames") n.tx_coald_frames
    ∷ row (codes "Link") (codes "TxMaxCoalescedIrqFrames") n.tx_coald_irq_frames
    ∷ row (codes "Link") (codes "TxMaxCoalescedLowFrames") n.tx_coald_low_frames
    ∷ row (codes "Link") (codes "TxMaxCoalescedHighFrames") n.tx_coald_high_frames
    ∷ []

abbrev pub rate_rows : NetDevLink → List Row
rate_rows n =
    row (codes "Link") (codes "CoalescePacketRateLow") n.coal_pkt_rate_low
    ∷ row (codes "Link") (codes "CoalescePacketRateHigh") n.coal_pkt_rate_high
    ∷ row (codes "Link") (codes "CoalescePacketRateSampleIntervalSec") n.coal_pkt_rate_smpl_itrvl
    ∷ row (codes "Link") (codes "StatisticsBlockCoalesceSec") n.sts_blk_coal
    ∷ []

-- The rows of a device.
abbrev pub link_rows : NetDevLink → List Row
link_rows n =
    name_rows n
    ++ device_rows n
    ++ offload_rows n
    ++ flow_rows n
    ++ channel_rows n
    ++ queue_rows n
    ++ coalesce_rows n
    ++ frame_rows n
    ++ rate_rows n
