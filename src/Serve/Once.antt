-- ===== src/Serve/Once.antt =====
-- Each handler behind the factory functions of src/ that returns has called `log_request` once.
use raddish.Base.{◌++◌, Bytes, refl}
use raddish.Std.Files.{Nodes, exists}
use raddish.Std.Outcome.{Outcome}
use raddish.Http.{Request, Reply, RequestHandlerData, init_response}
use raddish.Handlers.{echo, health, blocking, not_found_reply}
use raddish.Handlers.File.{handle_file}
use raddish.Handlers.Once.{Once, returned-Once, bind-Once, reply_with-OneMessage, with_status-Once}
use raddish.Crud.Handler.Once.{handle_request-Once}
use raddish.Game.Database.{Database}
use raddish.Game.Handler.Once.{handle_game-Once}
use raddish.Dispatch.{
  Handler, echo_handler, health_handler, blocking_handler, not_found_handler, file_handler,
  crud_handler, game_handler,
}
use raddish.Serve.{Platform, World, with_files, with_database, call, init_crud}

with_files-Once : (w : World) (o : Outcome (Nodes × Reply)) → Once o → Once (with_files w o)
unfolding Once
with_files-Once w (Outcome.ok (fs, reply)) h = h
with_files-Once w (Outcome.throw e) h = tt
with_files-Once w Outcome.undefined h = tt

with_database-Once :
    (w : World) (path : Bytes) (o : Outcome (Database × Reply))
    → Once o
    → Once (with_database w path o)
unfolding Once
with_database-Once w path (Outcome.ok (db, reply)) h = h
with_database-Once w path (Outcome.throw e) h = tt
with_database-Once w path Outcome.undefined h = tt

-- Each of the handlers.
pub call-Once :
    (p : Platform) (h : Handler) (config : RequestHandlerData) (w : World) (request : Request)
    → Once (call p h config w request)
unfolding call handle_file echo health blocking not_found_reply
call-Once p echo_handler config w request = returned-Once w _ (_, refl)
call-Once p health_handler config w request = returned-Once w _ (_, refl)
call-Once p blocking_handler config w request = returned-Once w _ (_, refl)
call-Once p not_found_handler config w request = returned-Once w _ (_, refl)
call-Once p file_handler config w request = with_status-Once w _ _ _ (
    reply_with-OneMessage (init_response p.beast request) (config.root ++ request.target)
      (exists w.files (config.root ++ request.target)) _)
call-Once p crud_handler config w request = bind-Once (init_crud w.files config) _ (λ made.
    with_files-Once w _ (handle_request-Once p.stray p.json p.beast p.os made w.files request))
call-Once p game_handler config w request =
    with_database-Once w config.data_path _
      (handle_game-Once p.game_json p.services p.beast (w.databases config.data_path) request)
