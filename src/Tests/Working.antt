-- ===== src/Tests/Working.antt =====
-- The program at work: a tick claims the due job, a request deletes it, and the context is done.
use signal_flow.Base.{◌≡◌, Result, ok, err, String, pos, true, refl, In, inl, inr}
use signal_flow.Store.{Store}
use signal_flow.Store.Statement.{store_runtime}
use signal_flow.Repository.Adapters.{job_repository}
use signal_flow.Repository.Integrity.{IsConsistent}
use signal_flow.Handler.Job
use signal_flow.Handler.Router.{Route, delete, by_bearer, routes, serve}
use signal_flow.Scheduler.Run.{RunState, stop, claim}
use signal_flow.App.Consistency.{
  LeaveTables, Changes, scheduled, served, none_yet, then_change, program-IsConsistent,
}
use signal_flow.Tests.Data.{store, every_hour}
use signal_flow.Tests.Tables.{tables-IsConsistent}
use signal_flow.Handler.Guard.{hmac}
use signal_flow.Tests.Program.{parsed_by, lib, lib_outside, begun, claimed, tick_claims}
use signal_flow.Tests.Web.{parts, request}

same_tables :
    (key : Result String) (token : String) (s : Store) → (parsed_by key token s).1.db ≡ s.db
same_tables (ok secret) token s = refl
same_tables (err e) token s = refl

lib_leaves : LeaveTables lib
lib_leaves = record {
  hash = λ password s. refl;
  parse_token = λ key token s. same_tables (key hmac) token s;
  ping = λ ctx pool s. refl;
  static = λ r s. refl;
}

abbrev delete_route : Route Store
delete_route = record {
  method = delete;
  pattern = "/api/v1/jobs/{id}";
  protection = by_bearer;
  handler = Job.delete store_runtime job_repository every_hour;
}

delete_route_listed : In delete_route (routes parts)
unfolding routes
delete_route_listed = inr (
    inr (
      inr (
        inr (
          inr (
            inr (
              inr (
                inr (
                  inr (
                    inr (
                      inr (
                        inr (
                          inr (
                            inr (
                              inr (
                                inr (
                                  inr (
                                    inr (
                                      inr (
                                        inr (
                                          inr (
                                            inr (
                                              inr (inr (inr (inr (inl refl))))))))))))))))))))))))))

abbrev deleted : RunState Store
deleted = record claimed { store = (serve parts delete_route request claimed.store).1 }

abbrev stopped : RunState Store
stopped = record deleted { stopping = true }

work : Changes lib (pos 1) "secret" "pool" begun stopped
work = then_change (scheduled (claim refl refl tick_claims)) (
    then_change (served delete_route request delete_route_listed)
      (then_change (scheduled (stop refl)) none_yet))

program-IsConsistent_example : IsConsistent stopped.store.db
program-IsConsistent_example =
    program-IsConsistent lib (pos 1) "secret" "pool" lib_outside lib_leaves store stopped
      tables-IsConsistent work
