-- ===== src/RateLimit/Window.antt =====
-- On the in-memory bucket of app/middleware/rate_limit.py over many requests.
use ops_pilot_be.Prelude.{
  ℕ, ◌+◌, ◌≤◌, ◌<◌, ◌≡◌, refl, List, [], ◌∷◌, ◌++◌, Bool, true, false, ◌&&◌, arith, ltb, leb,
  length, filter, All, if◌then◌else◌, length-append, filter-append, Bool-cases, inl, inr, sym, ap,
  ◌∙◌, append_assoc, append-nil,
}
use ops_pilot_be.RateLimit.{fresh, check_memory, serve}

-- The times do not decrease: `since` is no later than the first.
abbrev pub Ascending : ℕ → List ℕ → Type 0
Ascending since [] = Unit
Ascending since (t ∷ ts) = (since ≤ t) × Ascending t ts

-- Whether `t` lies in the window that ends at `end`.
abbrev pub in_window : ℕ → ℕ → ℕ → Bool
in_window window end t = leb t end && ltb end (t + window)

-- The last of the times.
abbrev pub latest : ℕ → List ℕ → ℕ
latest since [] = since
latest since (t ∷ ts) = latest t ts

module _ (window limit : ℕ) where
  -- What was fresh later was fresh before.
  pub filter-fresh :
      (earlier now : ℕ) (history : List ℕ)
      → earlier ≤ now
      → filter (fresh window now) (filter (fresh window earlier) history)
        ≡ filter (fresh window now) history
  filter-fresh earlier now [] le = refl
  filter-fresh earlier now (t ∷ ts) le = ground (arith, filter-fresh earlier now ts le)

  -- Up to `now` a window counts no more than what is fresh at `now`.
  in_window-le-fresh :
      (end now : ℕ) (history : List ℕ)
      → now ≤ end
      → length (filter (in_window window end) history) ≤ length (filter (fresh window now) history)
  in_window-le-fresh end now [] le = omega arith
  in_window-le-fresh end now (t ∷ ts) le = ground (arith, in_window-le-fresh end now ts le)

  -- The bucket after a check at `since`, where `history` lists every time let through so far.
  abbrev Tracks : ℕ → List ℕ → List ℕ → Type 0
  Tracks since history bucket =
      (now : ℕ) → since ≤ now → filter (fresh window now) bucket ≡ filter (fresh window now) history

  abbrev Bounded : List ℕ → Type 0
  Bounded history = (end : ℕ) → length (filter (in_window window end) history) ≤ limit

  Bounded-append :
      (now : ℕ) (history : List ℕ)
      → length (filter (fresh window now) history) < limit
      → Bounded history
      → Bounded (history ++ now ∷ [])
  Bounded-append now history room bounded end =
      rw
        (
          filter-append (in_window window end) history (now ∷ []),
          length-append (filter (in_window window end) history)
              (filter (in_window window end) (now ∷ [])),
        )
        (elim (Bool-cases (leb now end)) [
          | inl inside ↦ ground (arith, in_window-le-fresh end now history, bounded end)
          | inr before ↦ ground (arith, bounded end)
        ])

  Tracks-reject :
      (now : ℕ) {since : ℕ} (history bucket : List ℕ)
      → since ≤ now
      → Tracks since history bucket
      → Tracks now history (filter (fresh window now) bucket)
  Tracks-reject now history bucket le tracks later le' =
      filter-fresh now later bucket le' ∙ tracks later (omega arith)

  Tracks-admit :
      (now : ℕ) {since : ℕ} (history bucket : List ℕ)
      → since ≤ now
      → Tracks since history bucket
      → Tracks now (history ++ now ∷ []) (filter (fresh window now) bucket ++ now ∷ [])
  Tracks-admit now history bucket le tracks later le' =
      simp (filter-append, Tracks-reject now history bucket le tracks later le')

  -- One check keeps the two invariants.
  check_memory-step :
      (now : ℕ) {since : ℕ} (history bucket : List ℕ)
      → since ≤ now
      → Tracks since history bucket
      → Bounded history
      → let (passed, bucket') = check_memory window limit now bucket in
        let history' = if passed then history ++ now ∷ [] else history in
        Tracks now history' bucket' × Bounded history'
  unfolding check_memory
  check_memory-step now history bucket le tracks bounded =
      elim (Bool-cases (leb limit (length (filter (fresh window now) bucket)))) [
        | inl full ↦ rw full (Tracks-reject now history bucket le tracks, bounded)
        | inr room ↦ rw room (
          Tracks-admit now history bucket le tracks,
          Bounded-append now history (rw (← tracks now le) (ground arith)) bounded,
        )
      ]

  regroup :
      (passed : Bool) (now : ℕ) (history rest : List ℕ)
      → history ++ (if passed then now ∷ rest else rest)
        ≡ (if passed then history ++ now ∷ [] else history) ++ rest
  regroup true now history rest = sym (append_assoc history (now ∷ []) rest)
  regroup false now history rest = refl

  serve-invariant :
      (since : ℕ) (history bucket times : List ℕ)
      → Ascending since times
      → Tracks since history bucket
      → Bounded history
      → let (passed, bucket') = serve window limit bucket times in
        Tracks (latest since times) (history ++ passed) bucket' × Bounded (history ++ passed)
  unfolding serve
  serve-invariant since history bucket [] up tracks bounded =
      rw (append-nil history) (tracks, bounded)
  serve-invariant since history bucket (now ∷ times) (le, up) tracks bounded =
      let (passed, bucket') = check_memory window limit now bucket in
      let (tracks', bounded') = check_memory-step now history bucket le tracks bounded in
      rw (regroup passed now history (serve window limit bucket' times).0) (
        serve-invariant now (if passed then history ++ now ∷ [] else history) bucket' times up
          tracks' bounded')

  -- Nothing let through lies after the last request.
  abbrev Before : ℕ → List ℕ → Type 0
  Before now = All (λ t. t ≤ now)

  Before-if :
      (passed : Bool) (t now : ℕ) (rest : List ℕ)
      → t ≤ now
      → Before now rest
      → Before now (if passed then t ∷ rest else rest)
  Before-if true t now rest le h = (le, h)
  Before-if false t now rest le h = h

  serve-Before :
      (since now : ℕ) (bucket times : List ℕ)
      → Ascending since times
      → latest since times ≤ now
      → (since ≤ now) × Before now (serve window limit bucket times).0
  unfolding serve
  serve-Before since now bucket [] up le = (le, tt)
  serve-Before since now bucket (t ∷ times) (h, up) le =
      let (passed, bucket') = check_memory window limit t bucket in
      let (before, rest) = serve-Before t now bucket' times up le in
      (omega arith, Before-if passed t now _ before rest)

  fresh-in_window :
      (now : ℕ) (history : List ℕ)
      → Before now history
      → length (filter (fresh window now) history) ≡ length (filter (in_window window now) history)
  fresh-in_window now [] h = refl
  fresh-in_window now (t ∷ ts) h = ground (arith, fresh-in_window now ts h.1)

-- For requests of one key in time order, served by the in-memory bucket from empty, no window of the
-- given length, wherever it ends, holds more than `limit` requests that were let through.
pub serve-at_most_limit :
    (window limit end : ℕ) (times : List ℕ)
    → Ascending 0 times
    → length (filter (in_window window end) (serve window limit [] times).0) ≤ limit
serve-at_most_limit window limit end times up =
    (serve-invariant window limit 0 [] [] times up (λ _ _. refl) (λ _. omega arith)).1 end

-- After requests of one key in time order, served by the in-memory bucket from empty, a request at
-- `now`, not before them, is let through exactly if the window that ends at `now` holds fewer than
-- `limit` of those let through before.
pub check_memory-exact :
    (window limit now : ℕ) (times : List ℕ)
    → Ascending 0 times
    → latest 0 times ≤ now
    → let (passed, bucket) = serve window limit [] times in
      (check_memory window limit now bucket).0
      ≡ ltb (length (filter (in_window window now) passed)) limit
unfolding check_memory
check_memory-exact window limit now times up le =
    let (passed, bucket) = serve window limit [] times in
    let tracks =
      (serve-invariant window limit 0 [] [] times up (λ _ _. refl) (λ _. omega arith)).0 in
    ground (
      arith,
      ap length (tracks now le),
      fresh-in_window window limit now passed (serve-Before window limit 0 now [] times up le).1,
    )
