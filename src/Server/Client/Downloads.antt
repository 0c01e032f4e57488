-- ===== src/Server/Client/Downloads.antt =====
-- Client::triggerDownload.
use qt_data_sync.Common.{
  ℕ, Bool, true, false, List, [], ◌∷◌, ◌++◌, if◌then◌else◌, length, leb, sub32,
}
use qt_data_sync.Common.Equality.{◌==◌, nat_eq}
use qt_data_sync.Table.{Table}
use qt_data_sync.Exec.{pure, gets, modify, ◌>>=◌, ◌>>◌}
use qt_data_sync.Server.Database.{DataChange}
use qt_data_sync.Server.Database.Methods.{change_count, load_next_changes}
use qt_data_sync.Server.Client.{
  Handler, Server, Reply, changed_info, changed, last_changed, query, send,
}

-- The count is loaded again when it is used up.
unfoldable pub recount : Bool → Bool → Handler Bool
recount update false = pure update
recount update true = do
  device ← gets (λ s. s.device)
  count ← query (change_count device)
  modify (λ s. record s { cached_changes = sub32 count (length s.active) })
  pure true

abbrev pub change_reply : Bool → ℕ → ℕ → DataChange → Reply
change_reply true count id c = changed_info count id c
change_reply false count id c = changed id c

-- The body of the loop.
unfoldable pub send_change : Bool → ℕ → DataChange → Handler (Unit {0})
send_change update id c = do
  used_up ← gets (λ s. s.cached_changes == 0)
  info ← recount update used_up
  count ← gets (λ s. s.cached_changes)
  send (change_reply info count id c)
  modify (λ s. record s { active = s.active ++ id ∷ []; cached_changes = sub32 s.cached_changes 1 })

-- The loop; only its first message has the count, unless the count is loaded again.
unfoldable pub send_changes : Bool → Table ℕ DataChange → Handler (Unit {0})
send_changes update [] = pure tt
send_changes update ((id, c) ∷ rest) = do send_change update id c; send_changes false rest

unfoldable pub finish_downloads : Bool → List ℕ → Handler (Unit {0})
finish_downloads false [] = do modify (λ s. record s { cached_changes = 0 }); send last_changed
finish_downloads false (id ∷ ids) = pure tt
finish_downloads true ids = pure tt

unfoldable pub load_downloads : Server → ℕ → Bool → ℕ → Handler (Unit {0})
load_downloads server device update count =
    if leb server.down_threshold count
    then (do
      running ← gets (λ s. length s.active)
      changes ← query (load_next_changes device count running)
      send_changes update changes)
    else pure tt

unfoldable pub trigger_download : Server → Bool → Bool → Handler (Unit {0})
trigger_download server update skip_no_changes = do
  device ← gets (λ s. s.device)
  count ← gets (λ s. sub32 server.down_limit (length s.active))
  load_downloads server device update count
  active ← gets (λ s. s.active)
  finish_downloads skip_no_changes active
