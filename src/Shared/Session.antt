-- ===== src/Shared/Session.antt =====
-- A SQLAlchemy session over a database of type `D`: what it has flushed, what is committed, and the
-- databases that it has committed, in order. A crash leaves the committed database.
use mathlib.Core.List.{List, [], ◌∷◌, ◌++◌}
use micro_mart.Shared.Handlers.{Result, ok, err, Action}

pub record Session (D : Type 0) : Type 0 where
  pub working : D
  pub committed : D
  pub log : List D

module _ {D : Type 0} where
  -- `db.commit()`
  abbrev pub commit : Session D → Session D
  commit s = record { working = s.working; committed = s.working; log = s.log ++ s.working ∷ [] }

  -- `db.rollback()`
  abbrev pub rollback : Session D → Session D
  rollback s = record { working = s.committed; committed = s.committed; log = s.log }

  -- A new session begins at the committed database.
  abbrev pub open_session : D → Session D
  open_session d = record { working = d; committed = d; log = [] }

  abbrev pub closed : {E A : Type 0} → Result E A × Session D → Result E A × Session D
  closed (ok a, s) = (ok a, s)
  closed (err e, s) = (err e, rollback s)

  -- `get_db`: the request's session is rolled back when an exception leaves the handler, and what
  -- was flushed and not committed is lost when it is closed.
  abbrev pub in_session : {E A : Type 0} → Action (Session D) E A → Action D E A
  in_session handler d = let (r, s) = closed (handler (open_session d)) in (r, s.committed)
