-- ===== src/Core/HashMap/Rehash.antt =====
-- The loop of `hashmap_realloc`, as a loop over the list of the old entries, copies each of them.
use mathlib.Core.List.{append_assoc}
use net_det.Prelude.{
  ℕ, ◌+◌, ◌^◌, ◌<◌, ◌≡◌, refl, sym, ap, ◌∙◌, ◌⊎◌, inl, inr, List, [], ◌∷◌, ◌++◌, arith, length,
  length-append, true, false, Option, none, some, Run, ok, fault, ◌>>=◌, at, Bool-cases,
}
use net_det.Core.Device.{Mac, mac_eq}
use net_det.Core.HashMap.{HashEntry, store_entry, rehash}
use net_det.Core.HashMap.Slots.{taken, IsTaken, used, scan, mac_eq_iff}
use net_det.Core.HashMap.Probed.{IsProbed}
use net_det.Core.HashMap.Store.{Stored, store_entry-Stored}

-- The loop over the entries that are left.
pub rehash_list : List HashEntry → List HashEntry → ℕ → Run (List HashEntry)
rehash_list [] tmp n = ok tmp
rehash_list (e ∷ es) tmp n =
    elim e.device [ none ↦ ok tmp | some d ↦ store_entry tmp e n ] >>= λ tmp'. rehash_list es tmp' n

at-append :
    (xs : List HashEntry) (e : HashEntry) (es : List HashEntry)
    → at (xs ++ e ∷ es) (length xs) ≡ ok e
at-append [] e es = refl
at-append (x ∷ xs) e es = at-append xs e es

◌>>=◌-ap {ℓ κ} :
    {A : Type ℓ} {B : Type κ} (m : Run A) (f g : A → Run B)
    → ((a : A) → f a ≡ g a)
    → (m >>= f) ≡ (m >>= g)
◌>>=◌-ap (ok a) f g h = h a
◌>>=◌-ap (fault e) f g h = refl

pub rehash-rehash_list :
    (xs es tmp : List HashEntry) (n i : ℕ)
    → i ≡ length xs
    → rehash (length es) i (xs ++ es) tmp n ≡ rehash_list es tmp n
unfolding rehash rehash_list
rehash-rehash_list xs [] tmp n i e = refl
rehash-rehash_list xs (x ∷ es) tmp n i e =
    rw (e, at-append xs x es)
      (◌>>=◌-ap (elim x.device [ none ↦ ok tmp | some d ↦ store_entry tmp x n ])
        (λ tmp'. rehash (length es) (length xs + 1) (xs ++ x ∷ es) tmp' n)
        (λ tmp'. rehash_list es tmp' n)
        (λ tmp'. rw (← append_assoc xs (x ∷ []) es) (
          rehash-rehash_list (xs ++ x ∷ []) es tmp' n (length xs + 1)
            (rw length-append (omega arith)))))

abbrev pub first_some : Option ℕ → Option ℕ → Option ℕ
first_some none b = b
first_some (some a) b = some a

-- No address stands twice in the list.
abbrev pub IsDistinct : List HashEntry → Type 0
IsDistinct [] = Unit {0}
IsDistinct (e ∷ es) = (taken e ≡ true → scan es e.mac ≡ none) × IsDistinct es

pub record Copied (es tmp t : List HashEntry) : Type 0 where
  pub width : length t ≡ length tmp
  pub total : used t ≡ used es + used tmp
  pub probed : IsProbed t
  pub scans : (q : Mac) → scan t q ≡ first_some (scan es q) (scan tmp q)

module _ (e : HashEntry) (es tmp : List HashEntry) where
  Copied-free : {t : List HashEntry} → taken e ≡ false → Copied es tmp t → Copied (e ∷ es) tmp t
  unfolding scan
  Copied-free free c = record {
    width = c.width;
    total = ground (arith, c.total);
    probed = c.probed;
    scans = λ q. ground (arith, c.scans q);
  }

  module _ {tmp' : List HashEntry} (busy : IsTaken (e ∷ es) 0) (s : Stored tmp e tmp')
      (once : scan es e.mac ≡ none) where
    once_more : (q : Mac) → mac_eq e.mac q ≡ true → scan es q ≡ none
    once_more q same = rw (← (mac_eq_iff e.mac q).0 same) once

    Copied-busy : {t : List HashEntry} → Copied es tmp' t → Copied (e ∷ es) tmp t
    unfolding scan
    Copied-busy c = record {
      width = c.width ∙ s.width;
      total = ground (arith, c.total, s.one_more);
      probed = c.probed;
      scans = λ q. ground (arith, c.scans q, s.scans q, once_more q);
    }

    apart_next :
        ((q : Mac) → (scan (e ∷ es) q ≡ none) ⊎ (scan tmp q ≡ none))
        → (q : Mac) → (scan es q ≡ none) ⊎ (scan tmp' q ≡ none)
    unfolding scan
    apart_next apart q = ground (arith, apart q, s.scans q, once_more q)

  absent_yet :
      taken e ≡ true
      → (scan (e ∷ es) e.mac ≡ none) ⊎ (scan tmp e.mac ≡ none)
      → scan tmp e.mac ≡ none
  unfolding scan
  absent_yet busy apart = ground (arith, (mac_eq_iff e.mac e.mac).1 refl)

rehash_list_free :
    (e : HashEntry) (es tmp : List HashEntry) (n : ℕ)
    → taken e ≡ false
    → rehash_list (e ∷ es) tmp n ≡ rehash_list es tmp n
unfolding rehash_list
rehash_list_free e es tmp n free = ground arith

rehash_list_busy :
    (e : HashEntry) (es tmp tmp' : List HashEntry) (n : ℕ)
    → taken e ≡ true
    → store_entry tmp e n ≡ ok tmp'
    → rehash_list (e ∷ es) tmp n ≡ rehash_list es tmp' n
unfolding rehash_list
rehash_list_busy e es tmp tmp' n busy runs = ground arith

pub rehash_list-Copied :
    (es tmp : List HashEntry)
    → IsDistinct es
    → IsProbed tmp
    → length tmp < 2 ^ 32
    → used es + used tmp < length tmp
    → ((q : Mac) → (scan es q ≡ none) ⊎ (scan tmp q ≡ none))
    → (t : List HashEntry) × (rehash_list es tmp (length tmp) ≡ ok t) × Copied es tmp t
unfolding rehash_list scan
rehash_list-Copied [] tmp distinct probed small room apart =
    (tmp, refl, record { width = refl; total = omega arith; probed = probed; scans = λ q. refl })
rehash_list-Copied (e ∷ es) tmp distinct probed small room apart = elim (Bool-cases (taken e)) [
  | inr free ↦
      let (t, loops, c) =
        rehash_list-Copied es tmp distinct.1 probed small (ground arith)
          (λ q. ground (arith, apart q)) in
      (t, rehash_list_free e es tmp (length tmp) free ∙ loops, Copied-free e es tmp free c)
  | inl busy ↦
      let absent = absent_yet e es tmp busy (apart e.mac) in
      let (tmp', runs, s) = store_entry-Stored tmp e probed small (ground arith) busy absent in
      let (t, loops, c) =
        rehash_list-Copied es tmp' distinct.1 s.probed (rw s.width small)
          (ground (arith, s.width, s.one_more))
          (apart_next e es tmp busy s (distinct.0 busy) apart) in
      (
        t,
        rehash_list_busy e es tmp tmp' (length tmp) busy runs
            ∙ ap (rehash_list es tmp') (sym s.width)
            ∙ loops,
        Copied-busy e es tmp busy s (distinct.0 busy) c,
      )
]
