-- ===== src/DeviceLink/Says.antt =====
-- The settings of `netdev_link_configure`, by their names on the command line, say what the table of a
-- device says.
use network_config_manager.Base.{
  ℕ, ◌%◌, ◌^◌, ◌≡◌, refl, ap, sym, ◌∙◌, Bool, true, false, not, ◌&&◌, List, [], ◌∷◌, ◌++◌, Bytes,
  codes, Option, none, some, leb,
}
use network_config_manager.CLib.{streq}
use network_config_manager.CLib.Strtol.{Long}
use network_config_manager.Outcome.{Outcome}
use network_config_manager.Settings.{when, is_set, is_true, is_positive}
use network_config_manager.Settings.Table.{
  Row, row, stated, stated-append, flag, only, signed, bool_text,
}
use network_config_manager.StringUtil.{bool_to_str}
use network_config_manager.ConfFile.Ctl.{
  config_manager_new, ctl_to_config, insert_all, insert_config,
}
use network_config_manager.DeviceLink.{NetDevLink}
use network_config_manager.DeviceLink.Settings.{
  LinkValue, text, int, link_ctl_to_config_table, ctl_str, ctl_bool, ctl_int, ctl_unsigned,
  link_entries, name_entries, device_entries, offload_entries, flow_entries, channel_entries,
  queue_entries, coalesce_entries, frame_entries, rate_entries,
}
use network_config_manager.DeviceLink.Overlay.{
  value_of_link, or_read, link_overlay, link_overlay-append,
}
use network_config_manager.DeviceLink.Documented.{
  link_rows, name_rows, device_rows, offload_rows, flow_rows, channel_rows, queue_rows,
  coalesce_rows, frame_rows, rate_rows,
}

-- Named settings say what a table says.
pub record LinkSays (es : List (Bytes × LinkValue)) (rs : List Row) : Type 0 where
  pub reads :
      (section k : Bytes) (old : Outcome Bytes)
      → link_overlay es section k old ≡ stated rs section k old

infixl 5 ◌also◌
◌also◌ :
    {es fs : List (Bytes × LinkValue)}
    → {rs qs : List Row} → LinkSays es rs
    → LinkSays fs qs
    → LinkSays (es ++ fs) (rs ++ qs)
◌also◌ {es = es} {fs = fs} {rs = rs} {qs = qs} p q = record {
  reads = λ section k old.
      link_overlay-append es fs section k old
      ∙ ap (link_overlay fs section k) (p.reads section k old)
      ∙ q.reads section k (stated rs section k old)
      ∙ sym (stated-append rs qs section k old);
}

-- No name stands twice in the table.
table_new : config_manager_new link_ctl_to_config_table ≡ link_ctl_to_config_table
unfolding config_manager_new insert_all insert_config streq
table_new = refl

module _ (name key : Bytes) where
  entry-LinkSays :
      (b : Bool) (v : LinkValue)
      → ctl_to_config link_ctl_to_config_table name ≡ some key
      → LinkSays (when b ((name, v) ∷ [])) (row (codes "Link") key (only b (value_of_link v)) ∷ [])
  unfolding link_overlay stated
  entry-LinkSays false v h = record { reads = λ section k old. refl }
  entry-LinkSays true v h = record {
    reads = λ section k old.
        ap (λ o. or_read o v section k old) (ap (λ t. ctl_to_config t name) table_new ∙ h);
  }

  ctl_str-LinkSays :
      (x : Option Bytes)
      → ctl_to_config link_ctl_to_config_table name ≡ some key
      → LinkSays (ctl_str name x) (row (codes "Link") key x ∷ [])
  unfolding link_overlay stated
  ctl_str-LinkSays none h = entry-LinkSays false (text []) h
  ctl_str-LinkSays (some x) h = entry-LinkSays true (text x) h

  ctl_bool-LinkSays :
      (v : Long)
      → ctl_to_config link_ctl_to_config_table name ≡ some key
      → LinkSays (ctl_bool name v) (row (codes "Link") key (flag v) ∷ [])
  ctl_bool-LinkSays v h =
      rw (sym (bool_text (is_true v)))
        (entry-LinkSays (is_set v) (text (bool_to_str (is_true v))) h)

  ctl_int-LinkSays_at :
      (negative : Bool) (size : ℕ)
      → ctl_to_config link_ctl_to_config_table name ≡ some key
      → LinkSays
          (ctl_int name (record { neg = negative; size = size }))
          (row (codes "Link") key (only (not negative && leb 1 size) (signed size)) ∷ [])
  ctl_int-LinkSays_at true size h = entry-LinkSays false (int 0) h
  ctl_int-LinkSays_at false size h = entry-LinkSays (leb 1 size) (int (size % 2 ^ 32)) h

  ctl_int-LinkSays :
      (v : Long)
      → ctl_to_config link_ctl_to_config_table name ≡ some key
      → LinkSays
          (ctl_int name v)
          (row (codes "Link") key (only (is_positive v) (signed v.size)) ∷ [])
  ctl_int-LinkSays v h = ctl_int-LinkSays_at v.neg v.size h

  ctl_unsigned-LinkSays :
      (v : ℕ)
      → ctl_to_config link_ctl_to_config_table name ≡ some key
      → LinkSays (ctl_unsigned name v) (row (codes "Link") key (only (leb 1 v) (signed v)) ∷ [])
  ctl_unsigned-LinkSays v h = entry-LinkSays (leb 1 v) (int (v % 2 ^ 32)) h

name-LinkSays : (n : NetDevLink) → LinkSays (name_entries n) (name_rows n)
unfolding name_entries ctl_to_config streq
name-LinkSays n =
    ctl_str-LinkSays (codes "alias") (codes "Alias") n.alias refl
    also ctl_str-LinkSays (codes "desc") (codes "Description") n.desc refl
    also ctl_str-LinkSays (codes "macpolicy") (codes "MACAddressPolicy") n.macpolicy refl
    also ctl_str-LinkSays (codes "macaddr") (codes "MACAddress") n.macaddr refl
    also ctl_str-LinkSays (codes "namepolicy") (codes "NamePolicy") n.namepolicy refl
    also ctl_str-LinkSays (codes "name") (codes "Name") n.name refl
    also ctl_str-LinkSays (codes "altnamepolicy") (codes "AlternativeNamesPolicy") n.altnamepolicy
        refl
    also ctl_str-LinkSays (codes "altname") (codes "AlternativeName") n.altname refl

device-LinkSays : (n : NetDevLink) → LinkSays (device_entries n) (device_rows n)
unfolding device_entries ctl_to_config streq
device-LinkSays n =
    ctl_str-LinkSays (codes "mtu") (codes "MTUBytes") n.mtu refl
    also ctl_str-LinkSays (codes "bps") (codes "BitsPerSecond") n.bps refl
    also ctl_str-LinkSays (codes "duplex") (codes "Duplex") n.duplex refl
    also ctl_str-LinkSays (codes "wol") (codes "WakeOnLan") n.wol refl
    also ctl_str-LinkSays (codes "wolp") (codes "WakeOnLanPassword") n.wolp refl
    also ctl_str-LinkSays (codes "port") (codes "Port") n.port refl
    also ctl_str-LinkSays (codes "advertise") (codes "Advertise") n.advertise refl

offload-LinkSays : (n : NetDevLink) → LinkSays (offload_entries n) (offload_rows n)
unfolding offload_entries ctl_to_config streq
offload-LinkSays n =
    ctl_bool-LinkSays (codes "auton") (codes "AutoNegotiation") n.auto_nego refl
    also ctl_bool-LinkSays (codes "rxcsumo") (codes "ReceiveChecksumOffload") n.rx_csum_off refl
    also ctl_bool-LinkSays (codes "txcsumo") (codes "TransmitChecksumOffload") n.tx_csum_off refl
    also ctl_bool-LinkSays (codes "tso") (codes "TCPSegmentationOffload") n.tcp_seg_off refl
    also ctl_bool-LinkSays (codes "t6so") (codes "TCP6SegmentationOffload") n.tcp6_seg_off refl
    also ctl_bool-LinkSays (codes "gso") (codes "GenericSegmentationOffload") n.gen_seg_off refl
    also ctl_bool-LinkSays (codes "grxo") (codes "GenericReceiveOffload") n.gen_rx_off refl
    also ctl_bool-LinkSays (codes "grxoh") (codes "GenericReceiveOffloadHardware") n.gen_rx_off_hw
        refl
    also ctl_bool-LinkSays (codes "lrxo") (codes "LargeReceiveOffload") n.large_rx_off refl
    also ctl_bool-LinkSays (codes "rxvtha") (codes "ReceiveVLANCTAGHardwareAcceleration")
        n.rx_vlan_ctag_hw_acl refl
    also ctl_bool-LinkSays (codes "txvtha") (codes "TransmitVLANCTAGHardwareAcceleration")
        n.tx_vlan_ctag_hw_acl refl
    also ctl_bool-LinkSays (codes "rxvtf") (codes "ReceiveVLANCTAGFilter") n.rx_vlan_ctag_fltr refl
    also ctl_bool-LinkSays (codes "txvstha") (codes "TransmitVLANSTAGHardwareAcceleration")
        n.tx_vlan_stag_hw_acl refl
    also ctl_bool-LinkSays (codes "ntf") (codes "NTupleFilter") n.n_tpl_fltr refl
    also ctl_bool-LinkSays (codes "uarxc") (codes "UseAdaptiveRxCoalesce") n.use_adpt_rx_coal refl
    also ctl_bool-LinkSays (codes "uatxc") (codes "UseAdaptiveTxCoalesce") n.use_adpt_tx_coal refl

flow-LinkSays : (n : NetDevLink) → LinkSays (flow_entries n) (flow_rows n)
unfolding flow_entries ctl_to_config streq
flow-LinkSays n =
    ctl_bool-LinkSays (codes "txflowctrl") (codes "TxFlowControl") n.tx_flow_ctrl refl
    also ctl_bool-LinkSays (codes "rxflowctrl") (codes "RxFlowControl") n.rx_flow_ctrl refl
    also ctl_bool-LinkSays (codes "autoflowctrl") (codes "AutoNegotiationFlowControl")
        n.auto_flow_ctrl refl

channel-LinkSays : (n : NetDevLink) → LinkSays (channel_entries n) (channel_rows n)
unfolding channel_entries ctl_to_config streq
channel-LinkSays n =
    ctl_str-LinkSays (codes "rxch") (codes "RxChannels") n.rx_chnl refl
    also ctl_str-LinkSays (codes "txch") (codes "TxChannels") n.tx_chnl refl
    also ctl_str-LinkSays (codes "otrch") (codes "OtherChannels") n.otr_chnl refl
    also ctl_str-LinkSays (codes "combch") (codes "CombinedChannels") n.comb_chnl refl
    also ctl_str-LinkSays (codes "rxbuf") (codes "RxBufferSize") n.rx_buf refl
    also ctl_str-LinkSays (codes "rxminbuf") (codes "RxMiniBufferSize") n.rx_mini_buf refl
    also ctl_str-LinkSays (codes "rxjumbobuf") (codes "RxJumboBufferSize") n.rx_jumbo_buf refl
    also ctl_str-LinkSays (codes "txbuf") (codes "TxBufferSize") n.tx_buf refl

queue-LinkSays : (n : NetDevLink) → LinkSays (queue_entries n) (queue_rows n)
unfolding queue_entries ctl_to_config streq
queue-LinkSays n =
    ctl_int-LinkSays (codes "txq") (codes "TransmitQueues") n.tx_queues refl
    also ctl_int-LinkSays (codes "rxq") (codes "ReceiveQueues") n.rx_queues refl
    also ctl_unsigned-LinkSays (codes "txqlen") (codes "TransmitQueueLength") n.tx_queue_len refl
    also ctl_int-LinkSays (codes "gsob") (codes "GenericSegmentOffloadMaxBytes") n.gen_seg_off_bytes
        refl
    also ctl_int-LinkSays (codes "gsos") (codes "GenericSegmentOffloadMaxSegments")
        n.gen_seg_off_seg refl

coalesce-LinkSays : (n : NetDevLink) → LinkSays (coalesce_entries n) (coalesce_rows n)
unfolding coalesce_entries ctl_to_config streq
coalesce-LinkSays n =
    ctl_str-LinkSays (codes "rxcs") (codes "RxCoalesceSec") n.rx_coal refl
    also ctl_str-LinkSays (codes "rxcsirq") (codes "RxCoalesceIrqSec") n.rx_coal_irq refl
    also ctl_str-LinkSays (codes "rxcslow") (codes "RxCoalesceLowSec") n.rx_coal_low refl
    also ctl_str-LinkSays (codes "rxcshigh") (codes "RxCoalesceHighSec") n.rx_coal_high refl
    also ctl_str-LinkSays (codes "txcs") (codes "TxCoalesceSec") n.tx_coal refl
    also ctl_str-LinkSays (codes "txcsirq") (codes "TxCoalesceIrqSec") n.tx_coal_irq refl
    also ctl_str-LinkSays (codes "txcslow") (codes "TxCoalesceLowSec") n.tx_coal_low refl
    also ctl_str-LinkSays (codes "txcshigh") (codes "TxCoalesceHighSec") n.tx_coal_high refl

frame-LinkSays : (n : NetDevLink) → LinkSays (frame_entries n) (frame_rows n)
unfolding frame_entries ctl_to_config streq
frame-LinkSays n =
    ctl_str-LinkSays (codes "rxmcf") (codes "RxMaxCoalescedFrames") n.rx_coald_frames refl
    also ctl_str-LinkSays (codes "rxmcfirq") (codes "RxMaxCoalescedIrqFrames") n.rx_coald_irq_frames
        refl
    also ctl_str-LinkSays (codes "rxmcflow") (codes "RxMaxCoalescedLowFrames") n.rx_coald_low_frames
        refl
    also ctl_str-LinkSays (codes "rxmcfhigh") (codes "RxMaxCoalescedHighFrames")
        n.rx_coald_high_frames refl
    also ctl_str-LinkSays (codes "txmcf") (codes "TxMaxCoalescedFrames") n.tx_coald_frames refl
    also ctl_str-LinkSays (codes "txmcfirq") (codes "TxMaxCoalescedIrqFrames") n.tx_coald_irq_frames
        refl
    also ctl_str-LinkSays (codes "txmcflow") (codes "TxMaxCoalescedLowFrames") n.tx_coald_low_frames
        refl
    also ctl_str-LinkSays (codes "txmcfhigh") (codes "TxMaxCoalescedHighFrames")
        n.tx_coald_high_frames refl

rate-LinkSays : (n : NetDevLink) → LinkSays (rate_entries n) (rate_rows n)
unfolding rate_entries ctl_to_config streq
rate-LinkSays n =
    ctl_str-LinkSays (codes "cprlow") (codes "CoalescePacketRateLow") n.coal_pkt_rate_low refl
    also ctl_str-LinkSays (codes "cprhigh") (codes "CoalescePacketRateHigh") n.coal_pkt_rate_high
        refl
    also ctl_str-LinkSays (codes "cprsis") (codes "CoalescePacketRateSampleIntervalSec")
        n.coal_pkt_rate_smpl_itrvl refl
    also ctl_str-LinkSays (codes "sbcs") (codes "StatisticsBlockCoalesceSec") n.sts_blk_coal refl

pub link-LinkSays : (n : NetDevLink) → LinkSays (link_entries n) (link_rows n)
unfolding link_entries
link-LinkSays n =
    name-LinkSays n
    also device-LinkSays n
    also offload-LinkSays n
    also flow-LinkSays n
    also channel-LinkSays n
    also queue-LinkSays n
    also coalesce-LinkSays n
    also frame-LinkSays n
    also rate-LinkSays n
