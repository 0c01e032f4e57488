-- ===== src/RemoteConnector/Retries.antt =====
-- How long the connector waits before it connects again, and when it does not connect at all.
use qt_data_sync.Common.{
  ◌≡◌, refl, sym, ap, ◌∙◌, arith, ℕ, zero, suc, ◌+◌, Bool, true, false, List, [], ◌∷◌, ◌++◌,
  if◌then◌else◌, append_assoc, append-nil, ltb,
}
use qt_data_sync.RemoteConnector.{Connection, timeouts, timeout_at, retry}

-- One retry after the other, with no success in between.
unfoldable pub retries : ℕ → Connection → Connection
retries zero s = s
retries (suc n) s = retries n (retry s)

-- The delay of the retry with an index: 5 s, 10 s, 30 s, 60 s, and 300 s from then on.
abbrev pub delay : ℕ → ℕ
delay zero = 5
delay (suc zero) = 10
delay (suc (suc zero)) = 30
delay (suc (suc (suc zero))) = 60
delay (suc (suc (suc (suc i)))) = 300

abbrev pub delays : ℕ → ℕ → List ℕ
delays i zero = []
delays i (suc n) = delay i ∷ delays (suc i) n

-- The index after so many retries; it stops at the end of the table.
abbrev pub capped : ℕ → ℕ
capped zero = 0
capped (suc zero) = 1
capped (suc (suc zero)) = 2
capped (suc (suc (suc zero))) = 3
capped (suc (suc (suc (suc zero)))) = 4
capped (suc (suc (suc (suc (suc i))))) = 5

timeout_at-capped : (i : ℕ) → timeout_at (capped i) timeouts 0 ≡ delay i
timeout_at-capped zero = refl
timeout_at-capped (suc zero) = refl
timeout_at-capped (suc (suc zero)) = refl
timeout_at-capped (suc (suc (suc zero))) = refl
timeout_at-capped (suc (suc (suc (suc zero)))) = refl
timeout_at-capped (suc (suc (suc (suc (suc i))))) = refl

next_index : ℕ → ℕ
next_index r = if ltb r 5 then r + 1 else r

next_index-capped : (i : ℕ) → next_index (capped i) ≡ capped (suc i)
unfolding next_index
next_index-capped zero = refl
next_index-capped (suc zero) = refl
next_index-capped (suc (suc zero)) = refl
next_index-capped (suc (suc (suc zero))) = refl
next_index-capped (suc (suc (suc (suc zero)))) = refl
next_index-capped (suc (suc (suc (suc (suc i))))) = refl

retry-timers :
    (s : Connection) → (retry s).timers ≡ s.timers ++ timeout_at s.retry_index timeouts 0 ∷ []
unfolding retry
retry-timers s = either (ltb s.retry_index 5)
  where
    either :
        (b : Bool)
        → (let s' = record s { timers = s.timers ++ timeout_at s.retry_index timeouts 0 ∷ [] } in
            if b then record s' { retry_index = s.retry_index + 1 } else s').timers
          ≡ s.timers ++ timeout_at s.retry_index timeouts 0 ∷ []
    either true = refl
    either false = refl

retry-index : (s : Connection) → (retry s).retry_index ≡ next_index s.retry_index
unfolding retry next_index
retry-index s = either (ltb s.retry_index 5)
  where
    either :
        (b : Bool)
        → (let s' = record s { timers = s.timers ++ timeout_at s.retry_index timeouts 0 ∷ [] } in
            if b then record s' { retry_index = s.retry_index + 1 } else s').retry_index
          ≡ (if b then s.retry_index + 1 else s.retry_index)
    either true = refl
    either false = refl

unchanged : (i : ℕ) → i ≡ i + 0
unchanged i = omega arith

-- After `i` retries in a row, further retries wait 5, 10, 30, 60 and 300 seconds as the count goes
-- up, and 300 seconds each from then on; the index counts the retries up to 5, the number of delays
-- in the table, and stays there.
pub retries-delays :
    (n i : ℕ) (s : Connection)
    → s.retry_index ≡ capped i
    → ((retries n s).timers ≡ s.timers ++ delays i n) × ((retries n s).retry_index ≡ capped (i + n))
unfolding retries
retries-delays zero i s h = (sym (append-nil s.timers), h ∙ ap capped (unchanged i))
retries-delays (suc n) i s h =
    let t =
      retry-timers s
      ∙ ap (λ r. s.timers ++ timeout_at r timeouts 0 ∷ []) h
      ∙ ap (λ d. s.timers ++ d ∷ []) (timeout_at-capped i) in
    let r =
      retries-delays n (suc i) (retry s) (retry-index s ∙ ap next_index h ∙ next_index-capped i) in
    (
      r.0
          ∙ ap (λ x. x ++ delays (suc i) n) t
          ∙ append_assoc s.timers (delay i ∷ []) (delays (suc i) n),
      r.1 ∙ ap capped (shift i n),
    )
  where
    shift : (i n : ℕ) → suc i + n ≡ i + suc n
    shift i n = omega arith
