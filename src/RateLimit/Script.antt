-- ===== src/RateLimit/Script.antt =====
-- The Lua script `_SLIDING_WINDOW_LUA` of app/middleware/rate_limit.py, on a Redis sorted set, next
-- to the in-memory bucket.
use ops_pilot_be.Prelude.{
  ℕ, ◌+◌, ◌*◌, ◌≤◌, ◌≡◌, refl, List, [], ◌∷◌, ◌++◌, Bool, true, false, ◌&&◌, arith, leb, length,
  filter, if◌then◌else◌, any, Option, none, some, map, Bool-cases, inl, inr, nat_beq, All, sym, ◌∙◌,
  ap, map-append, All-filter, All-append,
}
use ops_pilot_be.RateLimit.{fresh, check_memory}

-- A member `now .. '-' .. random` with its score `now`.
pub record Entry : Type 0 where
  pub score : ℕ
  pub suffix : ℕ

abbrev pub same_member : Entry → Entry → Bool
same_member a b = nat_beq a.score b.score && nat_beq a.suffix b.suffix

-- A sorted set and the time at which `EXPIRE` removes it.
pub record SortedSet : Type 0 where
  pub entries : List Entry
  pub deadline : Option ℕ

-- Redis: the key is gone once its deadline has passed.
abbrev pub live : ℕ → SortedSet → List Entry
live now z = elim z.deadline [ none ↦ z.entries | some end ↦ if leb end now then [] else z.entries ]

-- `ZADD`: a member that is there already is not added again.
abbrev zadd : Entry → List Entry → List Entry
zadd e es = if any (same_member e) es then es else es ++ e ∷ []

-- `ZREMRANGEBYSCORE key -inf cutoff`
abbrev pub kept_entries : ℕ → ℕ → SortedSet → List Entry
kept_entries window now z = filter (λ (e : Entry). fresh window now e.score) (live now z)

-- The script, at `now` and `window` in milliseconds. `EXPIRE` takes seconds, and is given the
-- window in milliseconds all the same, so the key lives `window` seconds.
unfoldable pub sliding_window : ℕ → ℕ → ℕ → ℕ → SortedSet → Bool × SortedSet
sliding_window window limit now random z =
    let kept = kept_entries window now z in
    if leb limit (length kept) then (false, record z { entries = kept }) else (
      true,
      record {
        entries = zadd (record { score = now; suffix = random }) kept;
        deadline = some (now + window * 1000);
      },
    )

abbrev pub scores : List Entry → List ℕ
scores = map (λ (e : Entry). e.score)

filter-scores :
    (p : ℕ → Bool) (es : List Entry)
    → filter p (scores es) ≡ scores (filter (λ (e : Entry). p e.score) es)
filter-scores p [] = refl
filter-scores p (e ∷ es) = ground (arith, filter-scores p es)

length-scores : (es : List Entry) → length (scores es) ≡ length es
length-scores [] = refl
length-scores (e ∷ es) = omega (arith, length-scores es)

module _ (window : ℕ) where
  -- The key is removed only when all its entries have left the window.
  abbrev Covered : SortedSet → Type 0
  Covered z = elim z.deadline [
    | none ↦ Unit {0}
    | some end ↦ All (λ (e : Entry). e.score + window ≤ end) z.entries
  ]

  -- The sorted set and the bucket count the same, from `since` on.
  pub record Agrees (since : ℕ) (z : SortedSet) (bucket : List ℕ) : Type 0 where
    pub covered : Covered z
    pub before : All (λ (e : Entry). e.score ≤ since) z.entries
    pub same :
        (now : ℕ)
        → since ≤ now
        → filter (fresh window now) (scores z.entries) ≡ filter (fresh window now) bucket

  stale :
      (end now : ℕ) (es : List Entry)
      → end ≤ now
      → All (λ (e : Entry). e.score + window ≤ end) es
      → filter (λ (e : Entry). fresh window now e.score) es ≡ []
  stale end now [] le h = refl
  stale end now (e ∷ es) le h = ground (arith, stale end now es le h.1)

  live-fresh :
      (now : ℕ) (z : SortedSet)
      → Covered z
      → filter (λ (e : Entry). fresh window now e.score) (live now z)
        ≡ filter (λ (e : Entry). fresh window now e.score) z.entries
  live-fresh now z covered = go z.deadline z.entries covered
    where
      go :
          (d : Option ℕ) (es : List Entry)
          → Covered (record { entries = es; deadline = d })
          → filter
              (λ (e : Entry). fresh window now e.score)
              (live now (record { entries = es; deadline = d }))
            ≡ filter (λ (e : Entry). fresh window now e.score) es
      go none es h = refl
      go (some end) es h = elim (Bool-cases (leb end now)) [
        | inl gone ↦ rw gone (sym (stale end now es (ground arith) h))
        | inr there ↦ rw there
      ]

  kept-same :
      (now : ℕ) {since : ℕ} (z : SortedSet) (bucket : List ℕ)
      → since ≤ now
      → Agrees since z bucket
      → scores (filter (λ (e : Entry). fresh window now e.score) (live now z))
        ≡ filter (fresh window now) bucket
  kept-same now z bucket le a =
      rw (live-fresh now z a.covered)
        (sym (filter-scores (fresh window now) z.entries) ∙ a.same now le)

  All-kept :
      (P : Entry → Type 0) (now : ℕ) (z : SortedSet)
      → All P z.entries
      → All P (kept_entries window now z)
  All-kept P now z h = All-filter P _ (live now z) (go z.deadline h)
    where
      go : (d : Option ℕ) → All P z.entries → All P (live now (record z { deadline = d }))
      go none k = k
      go (some end) k = elim (Bool-cases (leb end now)) [
        | inl gone ↦ rw gone tt
        | inr there ↦ rw there k
      ]

  Covered-kept :
      (now : ℕ) (z : SortedSet)
      → Covered z
      → Covered (record z { entries = kept_entries window now z })
  Covered-kept now z h = go z.deadline h
    where
      go :
          (d : Option ℕ)
          → Covered (record z { deadline = d })
          → Covered (record { entries = kept_entries window now z; deadline = d })
      go none k = tt
      go (some end) k = All-kept (λ e. e.score + window ≤ end) now z k

  All-weaken :
      (P Q : Entry → Type 0) (es : List Entry) → ((e : Entry) → P e → Q e) → All P es → All Q es
  All-weaken P Q [] f h = tt
  All-weaken P Q (e ∷ es) f (p, h) = (f e p, All-weaken P Q es f h)

  All-snoc :
      (P : Entry → Type 0) (es : List Entry) (e : Entry) → All P es → P e → All P (es ++ e ∷ [])
  All-snoc P es e h p = All-append P es (e ∷ []) h (p, tt)

  module _ (limit now random : ℕ) {since : ℕ} (z : SortedSet) (bucket : List ℕ) (le : since ≤ now)
      (agrees : Agrees since z bucket) where
    abbrev drawn : Entry
    drawn = record { score = now; suffix = random }

    before-kept : All (λ (e : Entry). e.score ≤ now) (kept_entries window now z)
    before-kept =
        All-kept (λ e. e.score ≤ now) now z
          (All-weaken (λ e. e.score ≤ since) (λ e. e.score ≤ now) z.entries (λ e h. omega arith)
            agrees.before)

    Agrees-reject :
        Agrees now
          (record z { entries = kept_entries window now z })
          (filter (fresh window now) bucket)
    Agrees-reject = record {
      covered = Covered-kept now z agrees.covered;
      before = before-kept;
      same = λ later le'. ap (filter (fresh window later)) (kept-same now z bucket le agrees);
    }

    Agrees-admit :
        Agrees now
          (record {
            entries = kept_entries window now z ++ drawn ∷ [];
            deadline = some (now + window * 1000);
          })
          (filter (fresh window now) bucket ++ now ∷ [])
    Agrees-admit = record {
      covered =
          All-snoc (λ e. e.score + window ≤ now + window * 1000) _ drawn
            (All-weaken (λ e. e.score ≤ now) (λ e. e.score + window ≤ now + window * 1000) _
              (λ e h. omega arith) before-kept)
            (omega arith);
      before = All-snoc (λ e. e.score ≤ now) _ drawn before-kept (omega arith);
      same = λ later le'. simp (map-append, kept-same now z bucket le agrees);
    }

    count : length (kept_entries window now z) ≡ length (filter (fresh window now) bucket)
    count = sym (length-scores _) ∙ ap length (kept-same now z bucket le agrees)

    -- If the sorted set of a key agrees with its in-memory bucket at an earlier time, and the
    -- script's draw makes a member that is not in the set, then the Redis script answers as the
    -- bucket's check does, and set and bucket agree from then on, expiry of the key included.
    pub sliding_window-refines :
        any (same_member drawn) (kept_entries window now z) ≡ false
        → let (passed, z') = sliding_window window limit now random z in
          let (passed', bucket') = check_memory window limit now bucket in
          (passed ≡ passed') × Agrees now z' bucket'
    unfolding sliding_window check_memory
    sliding_window-refines unused =
        elim (Bool-cases (leb limit (length (kept_entries window now z)))) [
          | inl full ↦ let full' = rw count at full in rw (full, full') (refl, Agrees-reject)
          | inr room ↦ let room' = rw count at room in rw (room, room', unused) (refl, Agrees-admit)
        ]
