-- ===== src/Platform/Epoll.antt =====
-- src/platform/epoll_utils.c: the descriptors that an epoll instance watches.
-- `epoll_ctl` refuses to add a descriptor twice, and to remove one that it does not watch.
use net_det.Prelude.{
  ◌≡◌, Bool, false, ◌||◌, List, [], ◌∷◌, arith, inl, inr, Bool-cases, if◌then◌else◌,
}
use net_det.Prelude.Int.{ℤ, eq_ℤ, eq_ℤ_iff}

-- The descriptor is watched.
abbrev pub watches : List ℤ → ℤ → Bool
watches [] fd = false
watches (x ∷ xs) fd = eq_ℤ x fd || watches xs fd

unfoldable pub epoll_register : List ℤ → ℤ → List ℤ
epoll_register interest fd = if watches interest fd then interest else fd ∷ interest

unfoldable pub epoll_unregister : List ℤ → ℤ → List ℤ
epoll_unregister [] fd = []
epoll_unregister (x ∷ xs) fd =
    let rest = epoll_unregister xs fd in if eq_ℤ x fd then rest else x ∷ rest

pub watches-epoll_register :
    (interest : List ℤ) (fd q : ℤ)
    → watches (epoll_register interest fd) q ≡ eq_ℤ fd q || watches interest q
unfolding epoll_register
watches-epoll_register interest fd q = elim (Bool-cases (watches interest fd)) [
  | inl old ↦ elim (Bool-cases (eq_ℤ fd q)) [
    | inl same ↦ let here : fd ≡ q = (eq_ℤ_iff fd q).0 same in rw (old, same, ← here) old
    | inr other ↦ rw (old, other)
  ]
  | inr new ↦ rw new
]

pub watches-epoll_unregister :
    (interest : List ℤ) (fd q : ℤ)
    → watches (epoll_unregister interest fd) q ≡ (if eq_ℤ fd q then false else watches interest q)
unfolding epoll_unregister
watches-epoll_unregister [] fd q = ground arith
watches-epoll_unregister (x ∷ xs) fd q =
    let rest = watches-epoll_unregister xs fd q in
    elim (Bool-cases (eq_ℤ x fd)) [
      | inl same ↦
          let here : x ≡ fd = (eq_ℤ_iff x fd).0 same in
          elim (Bool-cases (eq_ℤ fd q)) [
            | inl hit ↦ rw (same, rest, hit)
            | inr miss ↦ let apart : eq_ℤ x q ≡ false = rw here miss in rw (same, rest, miss, apart)
          ]
      | inr other ↦ elim (Bool-cases (eq_ℤ fd q)) [
        | inl hit ↦
            let there : fd ≡ q = (eq_ℤ_iff fd q).0 hit in
            let apart : eq_ℤ x q ≡ false = rw there at other in rw (other, apart, rest, hit)
        | inr miss ↦ rw (other, rest, miss)
      ]
    ]
