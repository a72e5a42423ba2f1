-- ===== src/Transfer/Counted.antt =====
-- The segments that arrive in time for a process with no last segment are counted.
use difs.Prelude.{
  ℕ, suc, ◌+◌, ◌≤◌, ◌<◌, ◌%◌, ◌^◌, ◌≡◌, refl, sym, subst, true, List, [], ◌∷◌, length, All, arith,
}
use difs.Tlv.{Tlv}
use difs.Command.Response.{RepoCommandResponse, set_insert_num}
use difs.Storage.{Libs, Storage, Contract}
use difs.WriteHandle.{WriteHandle, counted, on_segment_data}
use difs.WriteHandle.Arrivals.{feed, state_of, goes_on, last_one, Storable, stored}
use difs.Transfer.Timely.{HasCount, IsFresh, Counts, Fresh, counted_process, segment-in_time}

module _ (T : Tlv) (L : Libs) (S : Storage L) where
  counted-next :
      (n : ℕ) (r : RepoCommandResponse)
      → HasCount n r
      → suc n < 2 ^ 64
      → IsFresh (suc n) (counted T L S true r)
  unfolding set_insert_num
  counted-next n r k fits =
      let next : (n + 1) % 2 ^ 64 ≡ suc n = omega arith in rw (k.0, k.1, next) (refl, refl, refl)

  module _ (Valid : S.State → Type 0) (C : Contract L S Valid) where
    -- A segment that arrives in time is counted.
    segment-counted :
        (now pid t n : ℕ) (d : L.Data) (h : WriteHandle T L S)
        → now ≤ t
        → Storable T L S d
        → suc n < 2 ^ 64
        → Counts T L S pid t n h
        → Fresh T L S pid t (suc n) (state_of T L S (on_segment_data T L S now d pid h))
    segment-counted now pid t n d h in_time good fits (v, at, k, count) =
        let (at', on, kept, k') = segment-in_time T L S now pid t d h v at k in_time in
        (
          counted_process T L S d h v,
          at',
          k',
          subst (λ b. IsFresh (suc n) (counted T L S b v.response))
              (sym (stored T L S Valid C d h.store good)) (counted-next n v.response count fits),
        )

    segment-goes_on :
        (now pid t n : ℕ) (d : L.Data) (ds : List (ℕ × L.Data)) (h : WriteHandle T L S)
        → now ≤ t
        → Counts T L S pid t n h
        → feed T L S ((now, d) ∷ ds) pid h
          ≡ feed T L S ds pid (state_of T L S (on_segment_data T L S now d pid h))
    segment-goes_on now pid t n d ds h in_time (v, at, k, count) =
        goes_on T L S now pid d ds h (segment-in_time T L S now pid t d h v at k in_time).1

    Fresh-Counts :
        (pid t n : ℕ) (h : WriteHandle T L S) → Fresh T L S pid t n h → Counts T L S pid t n h
    Fresh-Counts pid t n h (v, at, k, fresh) = (v, at, k, (fresh.0, fresh.1))

    feed-Fresh :
        (x : ℕ × L.Data) (xs : List (ℕ × L.Data)) (pid t n : ℕ) (h : WriteHandle T L S)
        → All (λ (x : ℕ × L.Data). (x.0 ≤ t) × Storable T L S x.1) (x ∷ xs)
        → n + length (x ∷ xs) < 2 ^ 64
        → Counts T L S pid t n h
        → Fresh T L S pid t (n + length (x ∷ xs)) (feed T L S (x ∷ xs) pid h)
    feed-Fresh (now, d) [] pid t n h good fits k =
        subst (λ g. Fresh T L S pid t (n + 1) g) (sym (last_one T L S now pid d h))
          (subst (λ m. Fresh T L S pid t m (state_of T L S (on_segment_data T L S now d pid h)))
            (omega arith) (segment-counted now pid t n d h good.0.0 good.0.1 (omega arith) k))
    feed-Fresh (now, d) (y ∷ ys) pid t n h good fits k =
        let h' = state_of T L S (on_segment_data T L S now d pid h) in
        let k' = segment-counted now pid t n d h good.0.0 good.0.1 (omega arith) k in
        subst (λ m. Fresh T L S pid t m (feed T L S ((now, d) ∷ y ∷ ys) pid h)) (omega arith)
          (subst (λ g. Fresh T L S pid t (suc n + length (y ∷ ys)) g)
            (sym (segment-goes_on now pid t n d (y ∷ ys) h good.0.0 k))
            (feed-Fresh y ys pid t (suc n) h' good.1 (omega arith)
              (Fresh-Counts pid t (suc n) h' k')))

    -- All segments that arrive in time are counted.
    pub counted_some :
        (x : ℕ × L.Data) (xs : List (ℕ × L.Data)) (pid t : ℕ) (h : WriteHandle T L S)
        → All (λ (x : ℕ × L.Data). (x.0 ≤ t) × Storable T L S x.1) (x ∷ xs)
        → length (x ∷ xs) < 2 ^ 64
        → Counts T L S pid t 0 h
        → Fresh T L S pid t (length (x ∷ xs)) (feed T L S (x ∷ xs) pid h)
    counted_some x xs pid t h good fits k =
        subst (λ m. Fresh T L S pid t m (feed T L S (x ∷ xs) pid h)) (omega arith)
          (feed-Fresh x xs pid t 0 h good (omega arith) k)

    pub counted_all :
        (ds : List (ℕ × L.Data)) (pid t : ℕ) (h : WriteHandle T L S)
        → All (λ (x : ℕ × L.Data). (x.0 ≤ t) × Storable T L S x.1) ds
        → length ds < 2 ^ 64
        → Counts T L S pid t 0 h
        → Counts T L S pid t (length ds) (feed T L S ds pid h)
    unfolding feed
    counted_all [] pid t h good fits k = k
    counted_all (x ∷ xs) pid t h good fits k =
        Fresh-Counts pid t (length (x ∷ xs)) (feed T L S (x ∷ xs) pid h)
          (counted_some x xs pid t h good fits k)
