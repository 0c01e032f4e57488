-- ===== src/Server/Client/Bounds.antt =====
-- The number of running downloads stays within the configured limit, and the subtraction that gives
-- the free places does not wrap.
use qt_data_sync.Common.{
  ℕ, suc, ◌+◌, ◌≤◌, ◌<◌, ◌^◌, refl, Bool, true, false, List, [], ◌∷◌, arith, length, length-append,
  length-take-le, leb, sub32, sub32-eq, Bool-cases, inl, inr,
}
use qt_data_sync.Common.Equality.{nat_eq}
use qt_data_sync.Table.{Table}
use qt_data_sync.Exec.{modify}
use qt_data_sync.Exec.Triple.{
  Triple, Keeps, pure-Keeps, gets-Keeps, seq-Keeps, bind-Keeps, modify-Keeps, modify-Triple,
  gets-Triple, pure-Triple, seq-Triple, bind-Triple, relax-Triple,
}
use qt_data_sync.Server.Database.{DataChange}
use qt_data_sync.Server.Database.Methods.{load_next_changes}
use qt_data_sync.Server.Client.{Client, Handler, Server, Thrown, query}
use qt_data_sync.Server.Client.Downloads.{
  recount, send_change, send_changes, finish_downloads, load_downloads, trigger_download,
}
use qt_data_sync.Server.Client.Handlers.{remove_one}
use qt_data_sync.Server.Client.Events.{Call, Event, session}
use qt_data_sync.Server.Client.Calls.{
  OfDownloads, reach_database-Keeps, query-Keeps, send-Keeps, modify-Same,
}
use qt_data_sync.Server.Client.Frame.{session-Keeps}

module _ (limit : ℕ) where
  -- There is room for `n` more downloads.
  abbrev pub Room : ℕ → Client → Type 0
  Room n s = length s.active + n ≤ limit

  room : (n : ℕ) → OfDownloads (Room n)
  room n = record { carries = λ s t e p. rw e p }

  less : (n m : ℕ) (s : Client) → m ≤ n → Room n s → Room m s
  less n m s h p = omega arith

  step :
      {A : Type 0} (n : ℕ) {m : Handler A}
      → Keeps (Room n) m
      → Triple (Room n) m (λ _. Room n) (λ _. Room 0)
  step n k = relax-Triple (Room n) (Room 0) (λ s p. less n 0 s (omega arith) p) k

  recount-Keeps : (n : ℕ) (update used_up : Bool) → Keeps (Room n) (recount update used_up)
  unfolding recount
  recount-Keeps n update false = pure-Keeps _
  recount-Keeps n update true = bind-Keeps _ _ (gets-Keeps _) (λ d.
      bind-Keeps _ _ (query-Keeps (room n) _)
        (λ c. seq-Keeps _ _ (modify-Same (room n) _ (λ s. refl)) (pure-Keeps _)))

  send_change-Triple :
      (n : ℕ) (update : Bool) (id : ℕ) (c : DataChange)
      → Triple (Room (suc n)) (send_change update id c) (λ _. Room n) (λ _. Room 0)
  unfolding send_change
  send_change-Triple n update id c = bind-Triple _ _ (step (suc n) (gets-Keeps _)) (λ used_up.
      bind-Triple _ _ (step (suc n) (recount-Keeps (suc n) update used_up)) (λ info.
        bind-Triple _ _ (step (suc n) (gets-Keeps _)) (λ count.
          seq-Triple (step (suc n) (send-Keeps (room (suc n)) _))
            (modify-Triple _ (λ s p. let e = length-append s.active (id ∷ []) in omega arith)))))

  send_changes-Triple :
      (update : Bool) (rows : Table ℕ DataChange)
      → Triple (Room (length rows)) (send_changes update rows) (λ _. Room 0) (λ _. Room 0)
  unfolding send_changes
  send_changes-Triple update [] = pure-Triple tt (λ s p. p)
  send_changes-Triple update ((id, c) ∷ rest) =
      seq-Triple (send_change-Triple (length rest) update id c) (send_changes-Triple false rest)

  -- At most as many changes are loaded as there are free places.
  load-Triple :
      (device count : ℕ) (running : ℕ)
      → Triple
          (Room count)
          (query (load_next_changes device count running))
          (λ rows. Room (length rows))
          (λ _. Room 0)
  unfolding query load_next_changes
  load-Triple device count running =
      seq-Triple (step count (reach_database-Keeps (room count)))
        (gets-Triple _ (λ s p. less count _ s (length-take-le count _) p))

  finish-Keeps : (skip : Bool) (active : List ℕ) → Keeps (Room 0) (finish_downloads skip active)
  unfolding finish_downloads
  finish-Keeps false [] = seq-Keeps _ _ (modify-Same (room 0) _ (λ s. refl)) (send-Keeps (room 0) _)
  finish-Keeps false (id ∷ ids) = pure-Keeps tt
  finish-Keeps true ids = pure-Keeps tt

  load_downloads-Triple :
      (server : Server) (device : ℕ) (update : Bool) (count : ℕ)
      → Triple (Room count) (load_downloads server device update count) (λ _. Room 0) (λ _. Room 0)
  unfolding load_downloads
  load_downloads-Triple server device update count =
      elim (Bool-cases (leb server.down_threshold count)) [
        | inl t ↦ rw t (
            bind-Triple _ _ (step count (gets-Keeps _)) (λ running.
              bind-Triple _ _ (load-Triple device count running) (send_changes-Triple update)))
        | inr f ↦ rw f (pure-Triple tt (λ s p. less count 0 s (omega arith) p))
      ]

module _ (server : Server) (word : server.down_limit < 2 ^ 32) where
  abbrev pub Bounded : Client → Type 0
  Bounded = Room server.down_limit 0

  trigger-Keeps : (update skip : Bool) → Keeps Bounded (trigger_download server update skip)
  unfolding trigger_download
  trigger-Keeps update skip = bind-Triple _ _ (gets-Keeps _) (λ device.
      bind-Triple _ _
        (gets-Triple (λ s. sub32 server.down_limit (length s.active))
          {Q = λ count. Room server.down_limit count}
          (λ s p.
            let e = sub32-eq server.down_limit (length s.active) (omega arith) word in omega arith))
        (λ count.
          seq-Triple (load_downloads-Triple server.down_limit server device update count)
            (bind-Keeps _ _ (gets-Keeps _) (λ active. finish-Keeps server.down_limit skip active))))

  length-remove_one : (x : ℕ) (ys : List ℕ) → length (remove_one server x ys) ≤ length ys
  length-remove_one x [] = omega arith
  length-remove_one x (y ∷ ys) = let h = length-remove_one x ys in ground arith

  removes-Keeps :
      (id : ℕ)
      → Keeps {E = Thrown} Bounded
          (modify (λ s. record s { active = remove_one server id s.active }))
  removes-Keeps id = modify-Keeps _ (λ s p. let h = length-remove_one id s.active in omega arith)

  -- Whatever happens to a client, the number of its running downloads stays within the limit, if that
  -- fits into 32 bits and the number is within it at first.
  pub session-Bounded :
      (es : List (Call × Event)) (s : Client) → Bounded s → Bounded (session server es s)
  session-Bounded = session-Keeps (room server.down_limit 0) server trigger-Keeps removes-Keeps
