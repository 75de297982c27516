-- ===== src/App/System/Reading.antt =====
-- What the main thread reads from the event bus.
use mathlib.Core.Path.{subst}
use mathlib.Core.List.{Memᴰ, append-nil}
use mathlib.Core.List.Memᴰ
use net_det.Prelude.{
  ℕ, arith, length, length-append, ◌+◌, ◌*◌, ◌≤◌, ◌≡◌, refl, ap, ◌∙◌, ◌⊎◌, inl, inr, Option, none,
  some, List, [], ◌∷◌, ◌++◌,
}
use net_det.Core.Device.{
  UiMessageType, UiMessage, ui_new_entry, ui_update_table, ui_resize, ui_timer_tick,
}
use net_det.Core.HashMap.{HashMap}
use net_det.Core.Registry.Linked.{IsLinked}
use net_det.App.Main.{Main}
use net_det.App.Main.Messages.{IsCarried, entries}
use net_det.App.System.{oldest}
use net_det.App.System.Occurs.{occurs, firsts, occurs-++, firsts-++}
use net_det.App.System.InStep.{Brings, IsInStep, entries-IsBound}

pub oldest-cases :
    (bus : List UiMessage)
    → ((oldest bus ≡ none) × (bus ≡ []))
      ⊎ ((rest : List UiMessage) × (msg : UiMessage) × (oldest bus ≡ some (rest, msg))
          × (bus ≡ rest ++ msg ∷ []))
unfolding oldest
oldest-cases [] = inl (refl, refl)
oldest-cases (x ∷ xs) = elim (oldest-cases xs) [
  | inl (empty, is) ↦ inr ([], x, rw empty, ap (◌∷◌ x) is)
  | inr (rest, msg, reads, is) ↦ inr (x ∷ rest, msg, rw reads, ap (◌∷◌ x) is)
]

-- The last message of the pipe brings its devices in.
firsts-last :
    (rest : List UiMessage) (msg : UiMessage)
    → firsts (rest ++ msg ∷ []) ≡ firsts rest ++ entries msg.msg_type msg.device
unfolding firsts
firsts-last rest msg =
    firsts-++ rest (msg ∷ [])
    ∙ ap (λ l. firsts rest ++ l) (append-nil (entries msg.msg_type msg.device))

-- The oldest message is read, and its device goes into the table.
pub read-IsInStep :
    (map : HashMap) (rest : List UiMessage) (msg : UiMessage) (table : List (Option ℕ))
    → IsInStep map (rest ++ msg ∷ []) table
    → IsInStep map rest (table ++ entries msg.msg_type msg.device)
read-IsInStep map rest msg table x = record {
  listed = λ p at. elim (Memᴰ.append_cases table at) [
    | inl old ↦ x.listed p old
    | inr new ↦
        entries-IsBound map msg.msg_type msg.device p
          (x.brought msg (Memᴰ.append_right rest (Memᴰ.head refl))) new
  ];
  brought = λ m at. x.brought m (Memᴰ.append_left (msg ∷ []) at);
  told = λ q p bound. elim (x.told q p bound) [
    | inl shown ↦ inl (Memᴰ.append_left (entries msg.msg_type msg.device) shown)
    | inr way ↦ elim (Memᴰ.append_cases rest way) [
      | inl still ↦ inr still
      | inr last ↦ inl (
          Memᴰ.append_right table (
            subst (λ m. Memᴰ (some p) (entries m.msg_type m.device)) (Memᴰ.eq_of_singleton last)
              (Memᴰ.head refl)))
    ]
  ];
  once = λ p.
      let news = entries msg.msg_type msg.device in
      let parts = ap (occurs p) (firsts-last rest msg) ∙ occurs-++ p (firsts rest) news in
      omega (arith, x.once p, occurs-++ p table news, parts);
  counted =
      let news = entries msg.msg_type msg.device in
      let parts = ap length (firsts-last rest msg) ∙ length-append (firsts rest) news in
      omega (arith, x.counted, length-append table news, parts);
}

pub brought-IsCarried :
    (map : HashMap) (kind : UiMessageType) (dev : Option ℕ) (m : Main)
    → IsLinked map m.heap
    → Brings map kind dev
    → 5 * (m.context.buffer.buffer.count + 1) ≤ 4 * m.context.buffer.buffer.size
    → IsCarried kind dev m
unfolding Brings IsCarried
brought-IsCarried map ui_new_entry dev m linked (p, is, (q, bound)) room =
    let y = linked q p bound in (p, y.dev, is, y.there, room)
brought-IsCarried map ui_update_table dev m linked given room = tt
brought-IsCarried map ui_resize dev m linked given room = given
brought-IsCarried map ui_timer_tick dev m linked given room = given
