-- ===== src/App/System/MainSteps.antt =====
-- A step of the main thread keeps the program consistent.
use mathlib.Core.Path.{subst}
use mathlib.Core.List.{Memᴰ, append-nil}
use mathlib.Core.List.Memᴰ
use net_det.Prelude.{◌+◌, ◌*◌, ◌≤◌, ◌≡◌, refl, sym, Option, ℕ, ◌∙◌, List, [], ◌∷◌, ◌++◌}
use net_det.Core.Device.{UiMessage}
use net_det.Core.Registry.Linked.{IsLinked}
use net_det.Core.DeviceBuffer.{contents}
use net_det.App.Process.{Process}
use net_det.App.Main.{Main, MainAnswers, main_process, with_process, handle_key}
use net_det.Ui.Tui.{Input}
use net_det.App.Main.Table.{IsTable}
use net_det.App.Main.Messages.{IsCarried, handle_message-IsTable}
use net_det.App.System.{System, shared, by_main, read_message}
use net_det.App.System.InStep.{IsInStep}
use net_det.App.Main.Moved.{moved-IsTable}
use net_det.App.System.Consistent.{listed_device, IsConsistent, KeepsConsistent}
use net_det.App.System.Reading.{read-IsInStep, brought-IsCarried}
use net_det.Ui.Tui.Pressed.{IsPressed}
use net_det.App.Main.Keys.{handle_key-IsTable}

module _ (s : System) (c : IsConsistent s) where
  abbrev devices : List (Option ℕ)
  devices = contents s.main.context.buffer.buffer

  -- The state after a step that leaves a table in step with the map and the messages.
  settled :
      (m : Main) (p : Process)
      → IsTable m
      → m.heap ≡ s.network.heap
      → main_process m ≡ p
      → IsInStep s.network.map p.event_bus (contents m.context.buffer.buffer)
      → IsConsistent (record s {
        main = m;
        network = record s.network { heap = m.heap; process = main_process m };
      })
  settled m p t heap process x = record {
    sound = record {
      valid = c.sound.valid;
      linked = subst (IsLinked s.network.map) (sym heap) c.sound.linked;
    };
    table = t;
    in_step =
        subst (λ q. IsInStep s.network.map q.event_bus (contents m.context.buffer.buffer))
          (sym process) x;
  }

  pub read_message-KeepsConsistent :
      (answers : MainAnswers) (rest : List UiMessage) (msg : UiMessage)
      → s.network.process.event_bus ≡ rest ++ msg ∷ []
      → 5 * (s.main.context.buffer.buffer.count + 1) ≤ 4 * s.main.context.buffer.buffer.size
      → KeepsConsistent (read_message answers rest msg s)
  unfolding read_message
  read_message-KeepsConsistent answers rest msg is room =
      let p : Process = record s.network.process { event_bus = rest } in
      let m : Main = with_process p (shared s) in
      let t : IsTable m =
        moved-IsTable (shared s) s.network.heap p c.table
          (listed_device s.network s.network.process.event_bus devices c.sound c.in_step) in
      let x : IsInStep s.network.map (rest ++ msg ∷ []) devices =
        subst (λ b. IsInStep s.network.map b devices) is c.in_step in
      let carried : IsCarried msg.msg_type msg.device m =
        brought-IsCarried s.network.map msg.msg_type msg.device m c.sound.linked
          (x.brought msg (Memᴰ.append_right rest (Memᴰ.head refl))) room in
      let (m', runs, t', holds, heap, process) =
        handle_message-IsTable answers msg.msg_type msg.device m t carried in
      (
        _,
        rw runs,
        settled m' p t' heap process (
            subst (λ u. IsInStep s.network.map rest u) (sym holds)
              (read-IsInStep s.network.map rest msg devices x)),
      )

  pub handle_key-KeepsConsistent :
      (answers : MainAnswers) (input : Input)
      → IsPressed input answers.popup
      → KeepsConsistent (by_main s (handle_key answers input (shared s)))
  handle_key-KeepsConsistent answers input still =
      let (m', runs, t', holds, heap, process) =
        handle_key-IsTable answers (shared s) c.table input still in
      (
        _,
        rw runs,
        settled m' s.network.process t' heap process (
            subst (λ u. IsInStep s.network.map s.network.process.event_bus u)
              (sym (holds ∙ append-nil devices)) c.in_step),
      )
