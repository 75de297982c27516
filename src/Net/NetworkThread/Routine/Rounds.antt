-- ===== src/Net/NetworkThread/Routine/Rounds.antt =====
-- The network thread keeps a sound state through any rounds of events, and ends when it is told to.
use net_det.Prelude.{
  ◌≡◌, ◌≢◌, refl, inl, inr, ◌||◌, true, false, List, [], ◌∷◌, arith, ok, returned, Bool, Bool-cases,
}
use net_det.App.Lifecycle.{network_request_shutdown}
use net_det.Net.NetworkThread.Tick.{IsSound}
use net_det.Net.NetworkThread.Routine.{
  NetworkThread, Round, Standing, waiting, finished, gave_up, others, handle_events,
  network_clean_up, network_loop,
}
use net_det.Net.NetworkThread.Routine.Events.{IsRunning, AllFair, Runs-cases, handle_events-Runs}

-- The answers that all the rounds need.
abbrev pub AllRounds : List Round → NetworkThread → Type 0
AllRounds [] t = Unit
AllRounds (r ∷ rs) t =
    AllFair r.events (others r t)
    × ((u : NetworkThread)
        → handle_events r.events (others r t) ≡ ok (u, returned tt)
        → AllRounds rs u)

-- In one of the rounds the thread is told to end.
abbrev pub told : List Round → Bool
told [] = false
told (r ∷ rs) = r.shutdown || told rs

-- How the loop leaves the thread.
abbrev pub Left : Standing → NetworkThread → Type 0
Left waiting u = IsRunning u
Left finished u = (v : NetworkThread) × IsSound v.network × (u ≡ network_clean_up v)
Left gave_up u = IsSound u.network

others-IsRunning : (r : Round) (t : NetworkThread) → IsRunning t → IsRunning (others r t)
unfolding others
others-IsRunning r t running = record {
  sound = record { valid = running.sound.valid; linked = running.sound.linked };
  watched = running.watched;
}

others_told :
    (r : Round) (t : NetworkThread)
    → r.shutdown ≡ true
    → (others r t).network.process.end_listen_loop ≡ true
unfolding others network_request_shutdown
others_told r t asked = ground arith

told_later :
    (r : Round) (rs : List Round) (t : NetworkThread)
    → (others r t).network.process.end_listen_loop ≡ false
    → told (r ∷ rs) ≡ true
    → told rs ≡ true
told_later r rs t on asked = elim (Bool-cases r.shutdown) [
  | inl now ↦ absurd (cc (on, others_told r t now))
  | inr later ↦ rw later at asked
]

abbrev pub Result : List Round → NetworkThread → Type 0
Result rs t =
    (u : NetworkThread) × (standing : Standing) × (network_loop rs t ≡ ok (u, standing))
    × Left standing u
    × (told rs ≡ true → standing ≢ waiting)

finish_round :
    (r : Round) (rs : List Round) (t : NetworkThread)
    → IsRunning t
    → (others r t).network.process.end_listen_loop ≡ true
    → Result (r ∷ rs) t
unfolding network_loop
finish_round r rs t running ended = (
  network_clean_up (others r t),
  finished,
  simp ended,
  (others r t, (others-IsRunning r t running).sound, refl),
  λ asked same. cc same,
)

pub network_loop-Left :
    (rs : List Round) (t : NetworkThread) → IsRunning t → AllRounds rs t → Result rs t
unfolding network_loop
network_loop-Left [] t running fair = (t, waiting, refl, running, λ asked. cc asked)
network_loop-Left (r ∷ rs) t running (fair, rest) =
    elim (Bool-cases (others r t).network.process.end_listen_loop) [
      | inl ended ↦ finish_round r rs t running ended
      | inr on ↦
          elim (Runs-cases (handle_events r.events (others r t))
            (handle_events-Runs r.events (others r t) (others-IsRunning r t running) fair)) [
              | inl (u, runs, sound) ↦ (u, gave_up, simp (on, runs), sound, λ asked same. cc same)
              | inr (u, runs, u_running) ↦
                  let (v, standing, loops, left, ends) =
                    network_loop-Left rs u u_running (rest u runs) in
                  (
                    v,
                    standing,
                    simp (on, runs) loops,
                    left,
                    λ asked. ends (told_later r rs t on asked),
                  )
            ]
    ]
