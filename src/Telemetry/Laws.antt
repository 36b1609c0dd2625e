-- ===== src/Telemetry/Laws.antt =====
-- What the middleware that logs requests does to them (shared/telemetry/middleware.py).
use micro_mart.Shared.{
  ℕ, ◌≡◌, refl, ◌↔◌, ◌⊎◌, inl, inr, ◌≤◌, ◌<◌, leb, true, false, List, [], ◌∷◌, ◌++◌, Result, ok,
  err, Action, arith, Bool-cases, Result-cases,
}
use micro_mart.Telemetry.{
  Level, Event, Entry, Request, client_ip, is_noisy, log_level, entry, dispatch,
}

-- What an answer is logged as: an exception, or its status at a level.
abbrev pub IsLogged : {E A : Type 0} → (A → ℕ) → Request → Result E A → Entry → Type 0
IsLogged status request (err e) x = x ≡ entry request Level.exception Event.failed
IsLogged status request (ok response) x =
    (x ≡ entry request x.level (Event.completed (status response)))
    × ((x.level ≡ Level.error) ↔ (500 ≤ status response))
    × ((x.level ≡ Level.warning) ↔ ((400 ≤ status response) × (status response < 500)))
    × ((x.level ≡ Level.info) ↔ (status response < 400))

levels :
    (n : ℕ)
    → ((log_level n ≡ Level.error) ↔ (500 ≤ n))
      × ((log_level n ≡ Level.warning) ↔ ((400 ≤ n) × (n < 500)))
      × ((log_level n ≡ Level.info) ↔ (n < 400))
levels n = elim (Bool-cases (leb 500 n)) [
  | inl e ↦ ground arith
  | inr e ↦ elim (Bool-cases (leb 400 n)) [ inl f ↦ ground arith | inr f ↦ ground arith ]
]

module _ {W E A : Type 0} (status : A → ℕ) where
  -- The middleware answers, raises and changes what it wraps as what it wraps does. It logs nothing of
  -- a health check; of any other request first that it was received, then one entry for how it ended.
  pub dispatch_transparent :
      (request : Request) (call_next : Action W E A) (w : W) (log : List Entry)
      → let (answer, (w', log')) = dispatch status request call_next (w, log) in
        (answer ≡ (call_next w).0)
        × (w' ≡ (call_next w).1)
        × (((is_noisy request.path ≡ true) × (log' ≡ log))
            ⊎ ((is_noisy request.path ≡ false)
                × ((x : Entry) × (log'
                      ≡ (log
                          ++ entry request Level.info
                              (Event.received (client_ip request.client_host))
                            ∷ [])
                        ++ x ∷ [])
                    × IsLogged status request (call_next w).0 x)))
  unfolding dispatch
  dispatch_transparent request call_next w log = elim (Bool-cases (is_noisy request.path)) [
    | inl e ↦ (ground arith, ground arith, inl (e, ground arith))
    | inr e ↦ elim (Result-cases (call_next w).0) [
      | inl (response, f) ↦
          let (a, b, c) = levels (status response) in
          (
            ground arith,
            ground arith,
            inr (
              e,
              (
                entry request (log_level (status response)) (Event.completed (status response)),
                ground arith,
                rw f (refl, a, b, c),
              ),
            ),
          )
      | inr (raised, f) ↦ (
        ground arith,
        ground arith,
        inr (e, (entry request Level.exception Event.failed, ground arith, rw f refl)),
      )
    ]
  ]
