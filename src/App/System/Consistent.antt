-- ===== src/App/System/Consistent.antt =====
-- The whole program: a sound map, a table of devices in memory, and both in step.
use mathlib.Core.List.{Memᴰ}
use net_det.Prelude.{ℕ, ◌≡◌, Bool, Run, ok, Option, some, List}
use net_det.Core.Device.{Device, UiMessage}
use net_det.Core.DeviceBuffer.{contents}
use net_det.Net.NetworkThread.{Network}
use net_det.Net.NetworkThread.Tick.{IsSound}
use net_det.App.Main.Table.{IsTable}
use net_det.App.Main.Moved.{moved-IsTable}
use net_det.App.System.{System, shared}
use net_det.Net.RawSocket.{Sockets}
use net_det.App.System.InStep.{IsInStep}

-- The whole program: a sound map, a table of devices in memory, and both in step.
pub record IsConsistent (s : System) : Type 0 where
  pub sound : IsSound s.network
  pub table : IsTable (shared s)
  pub in_step :
      IsInStep s.network.map s.network.process.event_bus (contents s.main.context.buffer.buffer)

-- The devices of the table are in memory.
pub listed_device :
    (n : Network) (bus : List UiMessage) (table : List (Option ℕ))
    → IsSound n
    → IsInStep n.map bus table
    → (p : ℕ) → Memᴰ (some p) table
    → (d : Device) × (n.heap p ≡ some d)
listed_device n bus table sound x p shown =
    let (q, bound) = x.listed p shown in let y = sound.linked q p bound in (y.dev, y.there)

-- Another state of the network thread that is in step with the table.
pub networked-IsConsistent :
    (s : System) (n : Network) (sockets : Sockets) (listening : Bool)
    → IsConsistent s
    → IsSound n
    → IsInStep n.map n.process.event_bus (contents s.main.context.buffer.buffer)
    → IsConsistent (record s { network = n; sockets = sockets; listening = listening })
networked-IsConsistent s n sockets listening c sound x = record {
  sound = sound;
  table =
      moved-IsTable (shared s) n.heap n.process c.table
        (listed_device n n.process.event_bus (contents s.main.context.buffer.buffer) sound x);
  in_step = x;
}

-- The action meets no fault, and the program stays consistent.
abbrev pub KeepsConsistent : Run System → Type 0
KeepsConsistent run = (s' : System) × (run ≡ ok s') × IsConsistent s'
