-- ===== src/App/Program/Begun.antt =====
-- How the program starts.
use mathlib.Core.Path.{subst}
use mathlib.Core.List.Memᴰ
use net_det.Prelude.{
  ◌≡◌, refl, sym, ap, ◌∙◌, inl, inr, none, some, List, [], arith, ok, replicate, Bool, true, false,
}
use net_det.Core.Device.{Heap, buffer_initial_size}
use net_det.Core.DeviceBuffer.{contents}
use net_det.Core.HashMap.{HashEntry, zero_entry}
use net_det.Core.HashMap.Resize.{scan-zeros}
use net_det.App.Process.{Process}
use net_det.Net.RawSocket.{Sockets}
use net_det.Net.NetworkThread.Routine.{Initialised, network_init}
use net_det.Net.NetworkThread.Routine.Started.{empty_network, zeroed-IsSound, network_init-Starts}
use net_det.App.Main.{Main, main_process}
use net_det.Ui.Popup.Settled.{process-IsSettled}
use net_det.App.Main.Table.{IsTable, draw_main-IsTable}
use net_det.App.Main.Started.{main_init-IsTable}
use net_det.App.System.{System}
use net_det.App.System.InStep.{IsInStep}
use net_det.App.System.Occurs.{occurs, firsts}
use net_det.App.System.Consistent.{IsConsistent}
use net_det.App.Program.{ProgramAnswers, no_socket, with_network, join_network, program_init}

-- No device, no message, and an empty table.
empty-IsInStep : (heap : Heap) (p : Process) → IsInStep (empty_network heap p).map [] []
unfolding occurs firsts
empty-IsInStep heap p = record {
  listed = λ r shown. absurd (Memᴰ.not-nil shown);
  brought = λ msg sent. absurd (Memᴰ.not-nil sent);
  told = λ q r bound. absurd (cc (bound, scan-zeros 128 q));
  once = λ r. omega arith;
  counted = refl;
}

-- An empty table beside an empty map.
begun-IsConsistent :
    (m : Main) (i : Initialised) (p : Process) (sockets : Sockets) (listening : Bool)
    → IsTable m
    → contents m.context.buffer.buffer ≡ []
    → p.event_bus ≡ []
    → IsConsistent (record {
      network = empty_network m.heap p;
      sockets = sockets;
      main = with_network m i;
      listening = listening;
    })
begun-IsConsistent m i p sockets listening t none_yet unsent = record {
  sound = zeroed-IsSound m.heap p;
  table = record {
    backed = t.backed;
    valid = t.valid;
    narrow = t.narrow;
    some_slots = t.some_slots;
    counted = t.counted;
    popup = process-IsSettled p m.context.screen t.popup;
  };
  in_step =
      subst (λ table. IsInStep (empty_network m.heap p).map p.event_bus table) (sym none_yet)
        (subst (λ bus. IsInStep (empty_network m.heap p).map bus []) (sym unsent)
          (empty-IsInStep m.heap p));
}

-- Where `is_visible` is set and the memory that `calloc` gives is zeroed, the program starts without a fault, with an empty map, an
-- empty table and no message on its way.
pub program_init-IsConsistent :
    (answers : ProgramAnswers) (m : Main)
    → m.context.screen.is_visible ≡ true
    → answers.start.record_found ≡ true
    → answers.start.calloc buffer_initial_size ≡ some (replicate buffer_initial_size none)
    → ((table : List HashEntry)
        → answers.network.calloc 128 ≡ some table
        → table ≡ replicate 128 zero_entry)
    → (main_process m).event_bus ≡ []
    → (s : System) × (program_init answers m ≡ ok s) × IsConsistent s
unfolding program_init join_network
program_init-IsConsistent answers m visible found slots zeroed unsent =
    let (m0, starts, t0, empty, _, process0, _) =
      main_init-IsTable answers.start m visible found slots in
    let (m1, draws, t, same, _, process) = draw_main-IsTable answers.first_draw m0 t0 in
    let nothing = same ∙ empty in
    let entry = m1.context.binded_interface in
    let i =
      network_init answers.network answers.initial_interface entry m1.heap (main_process m1) in
    let quiet : (main_process m1).event_bus ≡ [] =
      ap (λ p. p.event_bus) (process ∙ process0) ∙ unsent in
    elim (network_init-Starts answers.network answers.initial_interface entry m1.heap
      (main_process m1) zeroed) [
        | inl (thread, goes_on, _, is, _) ↦ (
          _,
          rw (starts, draws, goes_on, is),
          begun-IsConsistent m1 i (main_process m1) thread.sockets true t nothing quiet,
        )
        | inr (stops, (_, _, bus)) ↦ (
          _,
          rw (starts, draws, stops),
          begun-IsConsistent m1 i i.process no_socket false t nothing (bus ∙ quiet),
        )
      ]
