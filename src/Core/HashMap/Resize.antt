-- ===== src/Core/HashMap/Resize.antt =====
-- `hashmap_realloc` copies every entry to a larger table and loses none.
use net_det.Prelude.{
  ℕ, zero, suc, ◌*◌, ◌%◌, ◌^◌, ◌<◌, ◌≡◌, refl, sym, ◌∙◌, inl, inr, List, [], ◌∷◌, arith, length,
  length-replicate, get_or-replicate, replicate, true, false, Option, none, some, ok, Option-cases,
}
use net_det.Core.Device.{Mac, mac_eq}
use net_det.Core.HashMap.{HashEntry, HashMap, success, zero_entry, rehash, hashmap_realloc}
use net_det.Core.HashMap.Slots.{slot, taken, IsTaken, used, scan, scan-taken, mac_eq_comm}
use net_det.Core.HashMap.Probed.{IsProbed, IsValid}
use net_det.Core.HashMap.Rehash.{
  rehash_list, rehash-rehash_list, first_some, IsDistinct, rehash_list-Copied,
}

-- No two taken slots of the list have one address.
abbrev HasUnique : List HashEntry → Type 0
HasUnique t =
    (i j : ℕ)
    → i < length t
    → j < length t
    → IsTaken t i
    → IsTaken t j
    → mac_eq (slot t i).mac (slot t j).mac ≡ true
    → i ≡ j

IsDistinct-of_unique : (t : List HashEntry) → HasUnique t → IsDistinct t
IsDistinct-of_unique [] unique = tt
IsDistinct-of_unique (e ∷ es) unique = (
  λ busy. elim (Option-cases (scan es e.mac)) [
    | inl missing ↦ missing
    | inr (d, found) ↦
        let (x, x_below, x_taken, same, _) = scan-taken es e.mac d found in
        let clash =
          unique 0 (suc x) (omega arith) (omega arith) busy x_taken
            (mac_eq_comm e.mac (slot es x).mac ∙ same) in
        absurd (omega arith)
  ],
  IsDistinct-of_unique es (λ i j bi bj ti tj same.
      omega (arith, unique (suc i) (suc j) (omega arith) (omega arith) ti tj same)),
)

pub scan-zeros : (n : ℕ) (q : Mac) → scan (replicate n zero_entry) q ≡ none
unfolding scan
scan-zeros zero q = refl
scan-zeros (suc n) q = scan-zeros n q

pub used-zeros : (n : ℕ) → used (replicate n zero_entry) ≡ 0
used-zeros zero = refl
used-zeros (suc n) = used-zeros n

free-zeros : (n i : ℕ) → taken (slot (replicate n zero_entry) i) ≡ false
free-zeros n i = rw (get_or-replicate n zero_entry i)

pub zeros-IsProbed : (n : ℕ) → IsProbed (replicate n zero_entry)
zeros-IsProbed n = record {
  reach = λ i j _ _ busy _. absurd (cc (busy, free-zeros n i));
  unique = λ i j _ _ busy _ _. absurd (cc (busy, free-zeros n i));
}

-- The new map after a copy that found memory.
pub record Grown (map grown : HashMap) : Type 0 where
  pub doubled : grown.size ≡ 2 * map.size
  pub counts : grown.count ≡ map.count
  pub valid : IsValid grown
  pub keeps : (q : Mac) → scan grown.table q ≡ scan map.table q

realloc_runs :
    (calloc : ℕ → Option (List HashEntry)) (map : HashMap) (tmp t : List HashEntry) (n : ℕ)
    → map.size * 2 % 2 ^ 32 ≡ n
    → calloc n ≡ some tmp
    → rehash map.size 0 map.table tmp n ≡ ok t
    → hashmap_realloc calloc map ≡ ok (success, record map { table = t; size = n })
unfolding hashmap_realloc
realloc_runs calloc map tmp t n e memory loops = rw (e, hashmap_realloc) (ground arith)

rehash_all :
    (old tmp t : List HashEntry) (size n : ℕ)
    → size ≡ length old
    → length tmp ≡ n
    → rehash_list old tmp (length tmp) ≡ ok t
    → rehash size 0 old tmp n ≡ ok t
rehash_all old tmp t size n width wide loops =
    rw (width, ← wide) (rehash-rehash_list [] old tmp (length tmp) 0 refl ∙ loops)

first_some-none : (o : Option ℕ) → first_some o none ≡ o
first_some-none none = refl
first_some-none (some a) = refl

-- Growing a valid map of less than 2^31 slots meets no fault, ends, and keeps every entry.
pub hashmap_realloc-Grown :
    (calloc : ℕ → Option (List HashEntry)) (map : HashMap)
    → IsValid map
    → map.size < 2 ^ 31
    → calloc (2 * map.size) ≡ some (replicate (2 * map.size) zero_entry)
    → (grown : HashMap) × (hashmap_realloc calloc map ≡ ok (success, grown)) × Grown map grown
unfolding hashmap_realloc
hashmap_realloc-Grown calloc map v small zeroed =
    let twice : map.size * 2 % 2 ^ 32 ≡ 2 * map.size = omega arith in
    let n = 2 * map.size in
    let wide = length-replicate n zero_entry in
    let (t, loops, c) =
      rehash_list-Copied map.table (replicate n zero_entry)
        (IsDistinct-of_unique map.table v.probed.unique) (zeros-IsProbed n) (rw wide (omega arith))
        (omega (arith, wide, used-zeros n, v.counted, v.load, v.positive))
        (λ q. inr (scan-zeros n q)) in
    (
      record map { table = t; size = n },
      realloc_runs calloc map (replicate n zero_entry) t n twice zeroed
          (rehash_all map.table (replicate n zero_entry) t map.size n v.width wide loops),
      record {
        doubled = refl;
        counts = refl;
        valid = record {
          width = sym (c.width ∙ wide);
          counted = omega (arith, c.total, used-zeros n, v.counted);
          load = omega (arith, v.load);
          positive = omega (arith, v.positive);
          fits = omega arith;
          probed = c.probed;
        };
        keeps = λ q. c.scans q ∙ rw (scan-zeros n q) (first_some-none (scan map.table q));
      },
    )
