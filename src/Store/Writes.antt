-- ===== src/Store/Writes.antt =====
-- go/internal/store/store.go: the writes that other goroutines make between two steps of one.
use fado.Base.{ℕ, List, [], ◌∷◌, String, ℤ, string_eq}
use fado.Protocol.{PendingRecord, AuditEvent}
use fado.Store.{
  Store, save, attach_pager, set_auth_url, set_page_list, consume, ack, select_record,
  set_selected_idxs, cancel, save_result, append_event,
}
use fado.Store.Files.{Fault}

-- The store's writes, all but Purge and Prune.
pub data Write : Type 0 where
  saves : PendingRecord → String → Write
  attaches : String → String → ℕ → Write
  sets_auth_url : String → String → Write
  sets_page_list : String → String → List String → Write
  consumes : String → String → String → Write
  acks : String → String → Write
  selects : String → String → ℤ → List ℕ → String → Write
  toggles : String → List ℕ → Write
  cancels : String → String → String → Write
  saves_result : String → ℤ → String → Write
  appends : String → AuditEvent → Write

abbrev pub perform : Fault → ℕ → Write → Store → Store
perform fault now (saves rec rid) s = (save fault now rec rid s).0
perform fault now (attaches rid chat msg) s = attach_pager fault now rid chat msg s
perform fault now (sets_auth_url rid url) s = set_auth_url fault now rid url s
perform fault now (sets_page_list rid title lines) s = set_page_list fault now rid title lines s
perform fault now (consumes rid decision by) s = (consume fault now rid decision by s).0
perform fault now (acks rid by) s = (ack fault now rid by s).0
perform fault now (selects rid label idx idxs by) s =
    (select_record fault now rid label idx idxs by s).0
perform fault now (toggles rid idxs) s = (set_selected_idxs fault now rid idxs s).0
perform fault now (cancels rid by reason) s = (cancel fault now rid by reason s).0
perform fault now (saves_result rid exit output) s = save_result fault now rid exit output s
perform fault now (appends ts ev) s = append_event ts ev s

unfoldable pub perform_all : List (Fault × ℕ × Write) → Store → Store
perform_all [] s = s
perform_all ((fault, now, w) ∷ ws) s = perform_all ws (perform fault now w s)
