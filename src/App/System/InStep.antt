-- ===== src/App/System/InStep.antt =====
-- What holds between the map of the network thread, the messages on their way, and the table of the main
-- thread.
use mathlib.Core.Path.{subst}
use mathlib.Core.List.{Memᴰ}
use mathlib.Core.List.Memᴰ
use net_det.Prelude.{
  ℕ, ◌+◌, ◌≤◌, ◌≡◌, false, ◌==◌, ==_iff, refl, sym, ap, ◌∙◌, ◌⊎◌, inl, inr, Option, none, some,
  List, [], ◌∷◌, arith, length, Bool-cases,
}
use net_det.Core.Device.{
  Mac, mac_eq, UiMessageType, UiMessage, ui_new_entry, ui_update_table, ui_resize, ui_timer_tick,
}
use net_det.Core.HashMap.{HashMap}
use net_det.Core.HashMap.Slots.{scan, mac_eq_iff}
use net_det.Core.HashMap.Insert.{Inserted}
use net_det.Net.NetworkThread.Unbound.{IsUnbound, Announced, quiet, known, first_seen}
use net_det.App.Main.Messages.{entries}
use net_det.App.System.Occurs.{occurs, firsts, occurs-absent}

-- The device is bound in the map.
abbrev pub IsBound : HashMap → ℕ → Type 0
IsBound map p = (q : Mac) × (scan map.table q ≡ some p)

-- A message about a device brings one that is bound.
unfoldable pub Brings : HashMap → UiMessageType → Option ℕ → Type 0
Brings map ui_new_entry dev = (p : ℕ) × (dev ≡ some p) × IsBound map p
Brings map ui_update_table dev = (p : ℕ) × (dev ≡ some p) × IsBound map p
Brings map ui_resize dev = Unit
Brings map ui_timer_tick dev = Unit

abbrev pub new_entry : ℕ → UiMessage
new_entry p = record { msg_type = ui_new_entry; device = some p }

-- The devices of the map are those of the table and those whose first message is on its way, each once.
pub record IsInStep (map : HashMap) (bus : List UiMessage) (table : List (Option ℕ)) : Type 0 where
  pub listed : (p : ℕ) → Memᴰ (some p) table → IsBound map p
  pub brought : (msg : UiMessage) → Memᴰ msg bus → Brings map msg.msg_type msg.device
  pub told :
      (q : Mac) (p : ℕ) → scan map.table q ≡ some p → Memᴰ (some p) table ⊎ Memᴰ (new_entry p) bus
  pub once : (p : ℕ) → occurs p table + occurs p (firsts bus) ≤ 1
  pub counted : map.count ≡ length table + length (firsts bus)

some-injective : {a b : ℕ} → some a ≡ some b → a ≡ b
some-injective e = cc e

Inserted-IsBound :
    (map map' : HashMap) (q : Mac) (p r : ℕ)
    → scan map.table q ≡ none
    → Inserted map q p map'
    → IsBound map r
    → IsBound map' r
Inserted-IsBound map map' q p r absent i (k, bound) = elim (Bool-cases (mac_eq q k)) [
  | inl same ↦
      let here : q ≡ k = (mac_eq_iff q k).0 same in
      absurd (none_some (sym absent ∙ ap (scan map.table) here ∙ bound))
  | inr other ↦ (k, i.binds k ∙ rw other bound)
]
  where
    none_some : {r : ℕ} → ¬ none ≡ some r
    none_some e = cc e

Brings-map :
    (map map' : HashMap) (kind : UiMessageType) (dev : Option ℕ)
    → ((p : ℕ) → IsBound map p → IsBound map' p)
    → Brings map kind dev
    → Brings map' kind dev
unfolding Brings
Brings-map map map' ui_new_entry dev more (p, is, bound) = (p, is, more p bound)
Brings-map map map' ui_update_table dev more (p, is, bound) = (p, is, more p bound)
Brings-map map map' ui_resize dev more given = given
Brings-map map map' ui_timer_tick dev more given = given

-- A message more, which brings nothing into the table.
pub published-IsInStep :
    (map : HashMap) (bus : List UiMessage) (table : List (Option ℕ)) (msg : UiMessage)
    → Brings map msg.msg_type msg.device
    → entries msg.msg_type msg.device ≡ []
    → IsInStep map bus table
    → IsInStep map (msg ∷ bus) table
unfolding firsts
published-IsInStep map bus table msg brings nothing x = record {
  listed = x.listed;
  brought = λ m at. elim (Memᴰ.cases_cons at) [
    | inl e ↦ subst (λ m. Brings map m.msg_type m.device) (sym e) brings
    | inr old ↦ x.brought m old
  ];
  told = λ q p bound. elim (x.told q p bound) [
    | inl shown ↦ inl shown
    | inr way ↦ inr (Memᴰ.tail way)
  ];
  once = rw nothing x.once;
  counted = rw nothing x.counted;
}

-- The devices of the messages are those of the first ones.
firsts-new_entry :
    (bus : List UiMessage) (p : ℕ)
    → Memᴰ (some p) (firsts bus)
    → (msg : UiMessage) × Memᴰ msg bus × Memᴰ (some p) (entries msg.msg_type msg.device)
unfolding firsts
firsts-new_entry [] p at = absurd (Memᴰ.not-nil at)
firsts-new_entry (m ∷ bus) p at = elim (Memᴰ.append_cases (entries m.msg_type m.device) at) [
  | inl here ↦ (m, Memᴰ.head refl, here)
  | inr later ↦
      let (msg, sent, brings) = firsts-new_entry bus p later in (msg, Memᴰ.tail sent, brings)
]

-- What a message brings into the table is bound.
pub entries-IsBound :
    (map : HashMap) (kind : UiMessageType) (dev : Option ℕ) (p : ℕ)
    → Brings map kind dev
    → Memᴰ (some p) (entries kind dev)
    → IsBound map p
unfolding Brings
entries-IsBound map ui_new_entry dev p (r, is, bound) at =
    let same : r ≡ p = some-injective (sym is ∙ sym (Memᴰ.eq_of_singleton at)) in
    subst (IsBound map) same bound
entries-IsBound map ui_update_table dev p given at = absurd (Memᴰ.not-nil at)
entries-IsBound map ui_resize dev p given at = absurd (Memᴰ.not-nil at)
entries-IsBound map ui_timer_tick dev p given at = absurd (Memᴰ.not-nil at)

-- A device that the map lacks is neither in the table nor on its way.
unseen-once :
    (map : HashMap) (bus : List UiMessage) (table : List (Option ℕ)) (p : ℕ)
    → IsUnbound map p
    → IsInStep map bus table
    → (r : ℕ) → occurs r table + occurs r (some p ∷ firsts bus) ≤ 1
unfolding occurs
unseen-once map bus table p unbound x r =
    let none_here : ¬ IsBound map p = λ (k, bound). absurd (clash p (unbound k p bound)) in
    let shown = occurs-absent p table (λ at. none_here (x.listed p at)) in
    let sent = occurs-absent p (firsts bus) (λ at.
      let (msg, sent, brings) = firsts-new_entry bus p at in
      none_here (entries-IsBound map msg.msg_type msg.device p (x.brought msg sent) brings)) in
    elim (Bool-cases (p == r)) [
      | inl same ↦
          let is : p ≡ r = (==_iff p r).0 same in
          rw (same) (
            omega
              (arith, ap (λ k. occurs k table) is, ap (λ k. occurs k (firsts bus)) is, shown, sent))
      | inr other ↦ rw other (omega (arith, x.once r))
    ]
  where
    clash : (p : ℕ) → ¬ (p == p) ≡ false
    clash p e = ground (arith, e)

-- A device more in the map, and its first message.
first_seen-IsInStep :
    (map map' : HashMap) (bus : List UiMessage) (table : List (Option ℕ)) (q : Mac) (p : ℕ)
    → IsUnbound map p
    → scan map.table q ≡ none
    → Inserted map q p map'
    → IsInStep map bus table
    → IsInStep map' (new_entry p ∷ bus) table
unfolding Brings firsts
first_seen-IsInStep map map' bus table q p unbound absent i x =
    let more : (r : ℕ) → IsBound map r → IsBound map' r =
      λ r bound. Inserted-IsBound map map' q p r absent i bound in
    let here : IsBound map' p = (q, i.binds q ∙ rw ((mac_eq_iff q q).1 refl)) in
    record {
      listed = λ r shown. more r (x.listed r shown);
      brought = λ m at. elim (Memᴰ.cases_cons at) [
        | inl e ↦ subst (λ m. Brings map' m.msg_type m.device) (sym e) (p, refl, here)
        | inr old ↦ Brings-map map map' m.msg_type m.device more (x.brought m old)
      ];
      told = λ k r bound. elim (Bool-cases (mac_eq q k)) [
        | inl same ↦
            let is : r ≡ p = ground (arith, i.binds k, bound) in inr (Memᴰ.head (ap new_entry is))
        | inr other ↦
            let before : scan map.table k ≡ some r = ground (arith, i.binds k, bound) in
            elim (x.told k r before) [ inl shown ↦ inl shown | inr way ↦ inr (Memᴰ.tail way) ]
      ];
      once = unseen-once map bus table p unbound x;
      counted = omega (arith, i.counts, x.counted);
    }

pub Announced-IsInStep :
    (table : List (Option ℕ)) (map map' : HashMap) (bus bus' : List UiMessage)
    → Announced map bus map' bus'
    → IsInStep map bus table
    → IsInStep map' bus' table
unfolding Brings
Announced-IsInStep table _ _ _ _ (quiet map bus bus' e) x =
    subst (λ b. IsInStep map b table) (sym e) x
Announced-IsInStep table _ _ _ _ (known map bus bus' q p bound e) x =
    subst (λ b. IsInStep map b table) (sym e)
      (published-IsInStep map bus table (record { msg_type = ui_update_table; device = some p })
        (p, refl, (q, bound)) refl x)
Announced-IsInStep table _ _ _ _ (first_seen map map' bus bus' q p unbound absent i e) x =
    subst (λ b. IsInStep map' b table) (sym e)
      (first_seen-IsInStep map map' bus table q p unbound absent i x)
