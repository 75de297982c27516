-- ===== src/Net/NetworkThread/Receive.antt =====
-- A frame that is received: whatever its bytes, the map and the devices stay sound.
use net_det.Prelude.{
  get_or-replicate, copy-get_or, ltb, ℕ, ◌*◌, ◌^◌, ◌≤◌, ◌<◌, ◌≡◌, refl, ◌∙◌, inl, inr, true, none,
  some, List, arith, length, replicate, length-replicate, ok, Flow, returned, ◌==◌, Bool-cases,
  Option-cases, copy,
}
use net_det.Prelude.Int.{ℤ}
use net_det.Core.Device.{Device, update, rate_history_size}
use net_det.Core.HashMap.{zero_entry}
use net_det.Net.FrameParser.{frame_buffer_size, release}
use net_det.Net.FrameParser.Fields.{mac_at-at}
use net_det.Net.FrameParser.Safe.{IsReceived, process_raw_arp_frame_safe}
use net_det.Net.NetworkThread.{Network, FrameAnswers, receive_frame, handle_incoming_frame}
use net_det.Net.NetworkThread.Tick.{IsSound}
use net_det.Net.NetworkThread.Unbound.{
  IsUnbound, fresh-IsUnbound, Announces, quiet, raise_frame_count-IsLinked, write-IsSound,
}
use net_det.Net.NetworkThread.Register.{read_device-Announces, receive_frame-read_device}

-- What `recvmsg` writes into the zeroed buffer.
copied_bytes :
    (bytes : List ℕ)
    → length bytes ≤ 2040
    → (raw : List ℕ) × (copy (length bytes) 0 0 (replicate frame_buffer_size 0) bytes ≡ ok raw)
      × IsReceived raw (length bytes)
copied_bytes bytes short =
    let wide : length {A = ℕ} (replicate frame_buffer_size 0) ≡ frame_buffer_size =
      length-replicate {A = ℕ} 2048 0 in
    let (raw, copies, width, reads) =
      copy-get_or (length bytes) 0 0 (replicate frame_buffer_size 0) bytes (omega arith)
        (omega arith) in
    (
      raw,
      copies,
      record {
        width = width ∙ wide;
        padded = λ k late. ground (arith, reads k, get_or-replicate {A = ℕ} frame_buffer_size 0 k);
      },
    )

module _ (answers : FrameAnswers) (socket_fd : ℤ) (n : Network) (sound : IsSound n)
    (small : n.map.size < 2 ^ 31)
    (zeroed : answers.calloc (2 * n.map.size) ≡ some (replicate (2 * n.map.size) zero_entry))
    (p : ℕ) (unbound : IsUnbound n.map p) (garbage : Device)
    (memory : answers.malloc ≡ some (p, garbage)) where
  receive_frame-Announces :
      (bytes : List ℕ)
      → n.heap p ≡ some garbage
      → length garbage.graph.values ≡ rate_history_size
      → length bytes ≤ 2040
      → Announces n (receive_frame answers socket_fd bytes n)
  receive_frame-Announces bytes there cells short =
      let (raw, copies, received) = copied_bytes bytes short in
      let (sender, sends) = mac_at-at raw 6 (omega (arith, received.width)) in
      let (heap, counts, linked, still) =
        raise_frame_count-IsLinked n.map n.heap p garbage sender sound.linked unbound there in
      let (out, m, parses, width, _) =
        process_raw_arp_frame_safe raw (replicate frame_buffer_size 0) (length bytes) received
          (length-replicate {A = ℕ} 2048 0) short in
      let runs =
        receive_frame-read_device answers socket_fd n sound small zeroed p unbound garbage garbage
          memory bytes raw out sender heap m copies sends counts parses in
      let counted : Network = record n { heap = heap } in
      let counted_sound : IsSound counted = record { valid = sound.valid; linked = linked } in
      elim (Bool-cases (ltb m 50)) [
        | inl dropped ↦ (
          record n { heap = release heap p },
          returned tt,
          runs ∙ rw dropped,
          write-IsSound counted counted_sound p unbound (release heap p) (λ r other. rw other)
              n.process,
          quiet n.map n.process.event_bus n.process.event_bus refl,
        )
        | inr kept ↦
            let (n', flow, reads, n'_sound, tells) =
              read_device-Announces answers socket_fd counted counted_sound small zeroed p unbound
                garbage garbage memory out still cells width in
            (n', flow, runs ∙ rw kept reads, n'_sound, tells)
      ]

-- The handler before `recvmsg` has answered.
handle_incoming_frame-receive_frame :
    (answers : FrameAnswers) (socket_fd : ℤ) (n : Network) (p : ℕ) (garbage : Device)
    → answers.malloc ≡ some (p, garbage)
    → ((bytes : List ℕ)
        → answers.received ≡ some bytes
        → handle_incoming_frame answers socket_fd n
          ≡ receive_frame answers socket_fd bytes (record n { heap = update n.heap p garbage }))
      × (answers.received ≡ none
          → handle_incoming_frame answers socket_fd n
            ≡ ok (record n { heap = release (update n.heap p garbage) p }, returned tt))
unfolding handle_incoming_frame
handle_incoming_frame-receive_frame answers socket_fd n p garbage memory =
    (λ bytes received. rw (received, memory), λ failed. rw (failed, memory))

module _ (answers : FrameAnswers) (socket_fd : ℤ) (n : Network) (p : ℕ) (garbage : Device)
    (sound : IsSound n) (small : n.map.size < 2 ^ 31)
    (zeroed : answers.calloc (2 * n.map.size) ≡ some (replicate (2 * n.map.size) zero_entry))
    (memory : answers.malloc ≡ some (p, garbage))
    (cells : length garbage.graph.values ≡ rate_history_size) (fresh : n.heap p ≡ none)
    (short : (bytes : List ℕ) → answers.received ≡ some bytes → length bytes ≤ 2040) where
  -- Whatever `recvmsg` answers, the handler ends in a sound state and announces what it has done.
  pub handle_incoming_frame-Announces : Announces n (handle_incoming_frame answers socket_fd n)
  handle_incoming_frame-Announces =
      let unbound : IsUnbound n.map p = fresh-IsUnbound n sound p fresh in
      let hit : (p == p) ≡ true = ground arith in
      let m : Network = record n { heap = update n.heap p garbage } in
      let m_sound : IsSound m =
        write-IsSound n sound p unbound m.heap (λ r other. rw other) n.process in
      let (goes_on, ends) =
        handle_incoming_frame-receive_frame answers socket_fd n p garbage memory in
      elim (Option-cases answers.received) [
        | inl failed ↦ (
          record n { heap = release m.heap p },
          returned tt,
          ends failed,
          write-IsSound m m_sound p unbound (release m.heap p) (λ r other. rw other) n.process,
          quiet n.map n.process.event_bus n.process.event_bus refl,
        )
        | inr (bytes, received) ↦
            let (n', flow, runs, n'_sound, tells) =
              receive_frame-Announces answers socket_fd m m_sound small zeroed p unbound garbage
                memory bytes (rw hit) cells (short bytes received) in
            (n', flow, goes_on bytes received ∙ runs, n'_sound, tells)
      ]

-- In a sound state with a map of less than 2^31 slots, where `malloc` gives a device of 60 cells at an
-- address that is not in use and `calloc` gives zeroed memory: whatever `recvmsg` answers, an error or
-- any bytes, at most 2040, with any control messages, and whether or not the time is known, the handler
-- meets no fault, ends, and leaves a sound state.
pub handle_incoming_frame-IsSound :
    (answers : FrameAnswers) (socket_fd : ℤ) (n : Network) (p : ℕ) (garbage : Device)
    → IsSound n
    → n.map.size < 2 ^ 31
    → answers.calloc (2 * n.map.size) ≡ some (replicate (2 * n.map.size) zero_entry)
    → answers.malloc ≡ some (p, garbage)
    → length garbage.graph.values ≡ rate_history_size
    → n.heap p ≡ none
    → ((bytes : List ℕ) → answers.received ≡ some bytes → length bytes ≤ 2040)
    → (n' : Network) × (flow : Flow (Unit {0})) × (handle_incoming_frame answers socket_fd n
        ≡ ok (n', flow))
      × IsSound n'
handle_incoming_frame-IsSound answers socket_fd n p garbage sound small zeroed memory cells fresh
      short =
    let (n', flow, runs, n'_sound, _) =
      handle_incoming_frame-Announces answers socket_fd n p garbage sound small zeroed memory cells
        fresh short in
    (n', flow, runs, n'_sound)
