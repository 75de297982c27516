-- ===== src/Net/NetworkThread/Register.antt =====
-- The second half of `handle_incoming_frame`, from the processed frame on.
use net_det.Prelude.{
  ltb, ℕ, ◌*◌, ◌^◌, ◌<◌, ◌≡◌, refl, ap, ◌∙◌, inl, inr, true, false, Option, none, some, List, ◌∷◌,
  arith, length, replicate, ok, returned, exited, ◌==◌, Option-cases, if◌then◌else◌, copy,
}
use mathlib.Core.Path.{subst}
use net_det.Prelude.Int.{ℤ}
use net_det.Core.Device.{
  Mac, TimeStruct, Device, Heap, update, rate_history_size, device_raise_frame_count, ui_new_entry,
  ui_update_table,
}
use net_det.Core.HashMap.{zero_entry}
use net_det.Core.HashMap.Slots.{scan}
use net_det.Core.HashMap.Lookup.{hashmap_check_entry-scan}
use net_det.Core.Registry.Linked.{update-IsLinked, insert-IsLinked}
use net_det.Core.Registry.Upsert.{device_registry_upsert-new, device_registry_upsert-known}
use net_det.App.Process.{app_err_localtime_r}
use net_det.Common.Error.{network_error, network_error-event_bus}
use net_det.App.Lifecycle.{event_bus_publish}
use net_det.Net.FrameParser.{
  frame_buffer_size, release, VlanInfo, DeviceData, get_vlan_info, set_device_data, mac_at,
  process_raw_arp_frame,
}
use net_det.Net.FrameParser.Fields.{get_vlan_info-width, set_device_data-graph}
use net_det.Net.NetworkThread.{Network, FrameAnswers, register_device, read_device, receive_frame}
use net_det.Net.NetworkThread.Tick.{IsSound}
use net_det.Net.NetworkThread.Unbound.{
  IsUnbound, unbound-IsLinked, Announced, Announces, quiet, known, first_seen, Flow-cases,
  write-IsSound,
}

module _ (answers : FrameAnswers) (socket_fd : ℤ) (n : Network) (sound : IsSound n)
    (small : n.map.size < 2 ^ 31)
    (zeroed : answers.calloc (2 * n.map.size) ≡ some (replicate (2 * n.map.size) zero_entry))
    (p : ℕ) (unbound : IsUnbound n.map p) where
  register_new :
      (e : Device)
      → n.heap p ≡ some e
      → length e.graph.values ≡ rate_history_size
      → scan n.map.table e.mac ≡ none
      → Announces n (register_device answers socket_fd p n)
  unfolding register_device event_bus_publish
  register_new e there cells absent =
      let (map', g, runs, i, cleared) =
        device_registry_upsert-new answers.calloc answers.errno n.map n.heap p e socket_fd n.process
          sound.valid small zeroed there cells absent in
      (
        record {
          map = map';
          heap = update n.heap p (record e { previous_frames = 0; total_frames = 1; graph = g });
          process =
              event_bus_publish (record { msg_type = ui_new_entry; device = some p }) n.process;
        },
        returned tt,
        rw runs,
        record {
          valid = i.valid;
          linked =
              insert-IsLinked n.map map' n.heap p e
                (record e { previous_frames = 0; total_frames = 1; graph = g }) sound.linked i there
                refl cleared.2 (omega (arith, cleared.0));
        },
        first_seen n.map map' n.process.event_bus
            (record { msg_type = ui_new_entry; device = some p } ∷ n.process.event_bus) e.mac p
            unbound absent i refl,
      )

  register_known :
      (e : Device) (r : ℕ)
      → n.heap p ≡ some e
      → (bound : scan n.map.table e.mac ≡ some r)
      → Announces n (register_device answers socket_fd p n)
  unfolding register_device event_bus_publish
  register_known e r there bound =
      let x = sound.linked e.mac r bound in
      let seen : Device = record x.dev { last_seen = e.last_seen } in
      let runs =
        device_registry_upsert-known answers.calloc answers.errno n.map n.heap p e r socket_fd
          n.process sound.valid sound.linked there bound in
      let apart : (p == r) ≡ false = ground (arith, unbound e.mac r bound) in
      (
        record {
          map = n.map;
          heap = release (update n.heap r seen) p;
          process =
              event_bus_publish (record { msg_type = ui_update_table; device = some r }) n.process;
        },
        returned tt,
        rw (runs, apart, there, hashmap_check_entry-scan n.map e.mac sound.valid, bound),
        record {
          valid = sound.valid;
          linked =
              unbound-IsLinked n.map (update n.heap r seen) (release (update n.heap r seen) p) p
                unbound (λ q other. rw other)
                (update-IsLinked n.map n.heap r x.dev seen sound.linked x.there refl x.cells
                  x.inside);
        },
        known n.map n.process.event_bus
            (record { msg_type = ui_update_table; device = some r } ∷ n.process.event_bus) e.mac r
            bound refl,
      )

  pub register_device-Announces :
      (e : Device)
      → n.heap p ≡ some e
      → length e.graph.values ≡ rate_history_size
      → Announces n (register_device answers socket_fd p n)
  register_device-Announces e there cells = elim (Option-cases (scan n.map.table e.mac)) [
    | inl absent ↦ register_new e there cells absent
    | inr (r, bound) ↦ register_known e r there bound
  ]

module _ (answers : FrameAnswers) (socket_fd : ℤ) (n : Network) (sound : IsSound n)
    (small : n.map.size < 2 ^ 31)
    (zeroed : answers.calloc (2 * n.map.size) ≡ some (replicate (2 * n.map.size) zero_entry))
    (p : ℕ) (unbound : IsUnbound n.map p) (d garbage : Device)
    (memory : answers.malloc ≡ some (p, garbage)) where
  module _ (frame : List ℕ) (v : VlanInfo)
      (runs : get_vlan_info answers.control frame answers.errno socket_fd n.process ≡ ok v) where
    -- The three ways through `read_device`.
    read_device_no_tag :
        v.flow ≡ exited
        → read_device answers socket_fd frame n ≡ ok (record n { process = v.process }, exited)
    unfolding read_device
    read_device_no_tag ends = rw (runs, ends)

    read_device_no_time :
        (u : Unit {0}) (x : DeviceData)
        → v.flow ≡ returned u
        → set_device_data n.heap p v.frame answers.errno socket_fd answers.local_time v.process
          ≡ ok x
        → x.flow ≡ exited
        → read_device answers socket_fd frame n
          ≡ ok (record n { heap = x.heap; process = x.process }, exited)
    unfolding read_device
    read_device_no_time u x goes_on sets ends = rw (runs, goes_on, memory, sets, ends)

    read_device-register_device :
        (u w : Unit {0}) (x : DeviceData)
        → v.flow ≡ returned u
        → set_device_data n.heap p v.frame answers.errno socket_fd answers.local_time v.process
          ≡ ok x
        → x.flow ≡ returned w
        → read_device answers socket_fd frame n
          ≡ register_device answers socket_fd p (record n { heap = x.heap; process = x.process })
    unfolding read_device
    read_device-register_device u w x goes_on sets on = rw (runs, goes_on, memory, sets, on)

  pub read_device-Announces :
      (frame : List ℕ)
      → n.heap p ≡ some d
      → length d.graph.values ≡ rate_history_size
      → length frame ≡ frame_buffer_size
      → Announces n (read_device answers socket_fd frame n)
  read_device-Announces frame there cells width =
      let (v, runs, v_width, v_bus) =
        get_vlan_info-width answers.control frame answers.errno socket_fd n.process width in
      let (no_time, some_time) =
        set_device_data-graph n.heap p d v.frame answers.errno socket_fd v.process there v_width in
      let sets = λ (o : Option TimeStruct).
        set_device_data n.heap p v.frame answers.errno socket_fd o v.process in
      elim (Flow-cases v.flow) [
        | inl (u, goes_on) ↦ elim (Option-cases answers.local_time) [
          | inl refused ↦
              let (e, ends) = no_time in
              (
                _,
                exited,
                read_device_no_time frame v runs u _ goes_on (ap sets refused ∙ ends) refl,
                write-IsSound n sound p unbound (release (update n.heap p e) p)
                    (λ r other. rw other) _,
                quiet n.map n.process.event_bus
                    (network_error app_err_localtime_r answers.errno socket_fd v.process).event_bus
                    (network_error-event_bus app_err_localtime_r answers.errno socket_fd v.process
                      ∙ v_bus),
              )
          | inr (t, given) ↦
              let (e, graph, ends) = some_time t in
              let m : Network = record n { heap = update n.heap p e; process = v.process } in
              let m_sound : IsSound m =
                write-IsSound n sound p unbound m.heap (λ r other. rw other) v.process in
              let hit : (p == p) ≡ true = ground arith in
              let (n', flow, registers, n'_sound, tells) =
                register_device-Announces answers socket_fd m m_sound small zeroed p unbound e
                  (rw hit) (ap (λ g. length g.values) graph ∙ cells) in
              (
                n',
                flow,
                read_device-register_device frame v runs u tt _ goes_on (ap sets given ∙ ends) refl
                    ∙ registers,
                n'_sound,
                subst (λ bus. Announced n.map bus n'.map n'.process.event_bus) v_bus tells,
              )
        ]
        | inr ends ↦ (
          record n { process = v.process },
          exited,
          read_device_no_tag frame v runs ends,
          record { valid = sound.valid; linked = sound.linked },
          quiet n.map n.process.event_bus v.process.event_bus v_bus,
        )
      ]

  module _ (bytes raw out : List ℕ) (sender : Mac) (heap : Heap) (m : ℕ)
      (copies : copy (length bytes) 0 0 (replicate frame_buffer_size 0) bytes ≡ ok raw)
      (sends : mac_at raw 6 ≡ ok sender)
      (counts : device_raise_frame_count n.heap (scan n.map.table sender) ≡ ok heap)
      (parses : process_raw_arp_frame raw (replicate frame_buffer_size 0) (length bytes)
        ≡ ok (out, m)) where
    pub receive_frame-read_device : receive_frame answers socket_fd bytes n ≡ (
        if ltb m 50
        then ok (record n { heap = release heap p }, returned tt)
        else read_device answers socket_fd out (record n { heap = heap }))
    unfolding receive_frame
    receive_frame-read_device =
        rw
          (copies, sends, hashmap_check_entry-scan n.map sender sound.valid, counts, parses, memory)
