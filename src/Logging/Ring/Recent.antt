-- ===== src/Logging/Ring/Recent.antt =====
-- The ring holds the latest records (internal/logging/ring.go).
use sakura_nexus.Base.{
  ℕ, zero, suc, ◌+◌, ◌-◌, ◌<◌, ◌≤◌, ◌≡◌, refl, sym, ap, ◌∙◌, Bool, true, false, List, [], ◌∷◌, ◌++◌,
  append_assoc, append-nil, map, if◌then◌else◌, ◌==◌, ltb, length, length-append, drop, arith,
  Bool-cases, inl, inr,
}
use sakura_nexus.Logging.Ring.{
  Attr, LogRecord, Entry, Ring, new_ring, entry_of, push, offer, handle, snapshot, subscribe,
}

-- What happens to a ring while it is open: a record, with the attributes of its logger, or a
-- subscription.
pub data Use : Type 0 where
  logged : List Attr → LogRecord → Use
  subscribed : Use

unfoldable pub use_ring : Ring → List Use → Ring
use_ring r [] = r
use_ring r (logged attrs rec ∷ rest) = use_ring (handle r attrs rec) rest
use_ring r (subscribed ∷ rest) = use_ring (subscribe r) rest

-- The entries of the records, the oldest first.
unfoldable pub entries : List Use → List Entry
entries [] = []
entries (logged attrs rec ∷ rest) = entry_of attrs rec ∷ entries rest
entries (subscribed ∷ rest) = entries rest

-- The last `n`.
unfoldable pub latest : ℕ → List Entry → List Entry
latest n xs = drop (length xs - n) xs

latest-short : (n : ℕ) (xs : List Entry) → length xs ≤ n → latest n xs ≡ xs
unfolding latest
latest-short n xs h = let e : length xs - n ≡ 0 = omega arith in rw e refl

latest-push :
    (n : ℕ) (buf : List Entry) (e : Entry) (xs : List Entry)
    → 0 < n
    → length buf ≤ n
    → latest n (push n buf e ++ xs) ≡ latest n (buf ++ e ∷ xs)
unfolding latest push
latest-push n [] e xs pos h = let room : ltb zero n ≡ true = ground arith in rw (room, push) refl
latest-push n (b ∷ bs) e xs pos h = elim (Bool-cases (ltb (suc (length bs)) n)) [
  | inl room ↦ rw (room, push) (ap (latest n) (append_assoc (b ∷ bs) (e ∷ []) xs))
  | inr full ↦
      let k : length (bs ++ e ∷ xs) ≡ length bs + suc (length xs) = length-append bs (e ∷ xs) in
      let same : suc (length (bs ++ e ∷ xs)) - n ≡ suc (length (bs ++ e ∷ xs) - n) =
        ground (arith, full) in
      rw (full, push)
        (ap (latest n) (append_assoc bs (e ∷ []) xs)
          ∙ sym (ap (λ i. drop i (b ∷ bs ++ e ∷ xs)) same))
]

push-length :
    (n : ℕ) (buf : List Entry) (e : Entry) → 0 < n → length buf ≤ n → length (push n buf e) ≤ n
unfolding push
push-length n [] e pos h = let room : ltb zero n ≡ true = ground arith in rw (room, push) pos
push-length n (b ∷ bs) e pos h =
    let k : length (bs ++ e ∷ []) ≡ length bs + suc zero = length-append bs (e ∷ []) in
    elim (Bool-cases (ltb (suc (length bs)) n)) [
      | inl room ↦ rw (room, push) (ground (arith, room))
      | inr full ↦ rw (full, push) (ground (arith, full))
    ]

if-false : (b : Bool) (x y : Ring) → b ≡ false → (if b then x else y) ≡ y
if-false false x y h = refl
if-false true x y h = absurd (true-false h)
  where
    true-false : true ≡ false → ⊥
    true-false k = ground (arith, k)

handle-open :
    (r : Ring) (attrs : List Attr) (rec : LogRecord)
    → r.closed ≡ false
    → handle r attrs rec ≡ record r {
      buf = push r.cap r.buf (entry_of attrs rec);
      subs = map (offer (entry_of attrs rec)) r.subs;
    }
unfolding handle
handle-open r attrs rec c = if-false r.closed r _ c

use_ring-latest :
    (r : Ring) (us : List Use)
    → r.closed ≡ false
    → 0 < r.cap
    → length r.buf ≤ r.cap
    → snapshot (use_ring r us) ≡ latest r.cap (r.buf ++ entries us)
unfolding use_ring entries snapshot subscribe
use_ring-latest r [] c pos h =
    sym (ap (latest r.cap) (append-nil r.buf) ∙ latest-short r.cap r.buf h)
use_ring-latest r (logged attrs rec ∷ rest) c pos h =
    let e = entry_of attrs rec in
    let r' : Ring = record r { buf = push r.cap r.buf e; subs = map (offer e) r.subs } in
    ap (λ x. snapshot (use_ring x rest)) (handle-open r attrs rec c)
    ∙ (use_ring-latest r' rest c pos (push-length r.cap r.buf e pos h)
        ∙ latest-push r.cap r.buf e (entries rest) pos h)
use_ring-latest r (subscribed ∷ rest) c pos h = use_ring-latest (subscribe r) rest c pos h

-- A snapshot of an open ring holds the latest records in order, as many as its capacity, 1024 where
-- none is given, whoever subscribes in between.
pub snapshot-latest :
    (capacity : ℕ) (us : List Use)
    → snapshot (use_ring (new_ring capacity) us)
      ≡ latest (if capacity == 0 then 1024 else capacity) (entries us)
unfolding new_ring
snapshot-latest capacity us =
    use_ring-latest (new_ring capacity) us refl (ground arith) (omega arith)
