-- ===== src/Broker/Requests.antt =====
-- The requests that the platform sends, one after another: the lock lets one mutating operation run
-- at a time. The others only read.
use osb_opengauss_go.Prelude.{List, [], ◌∷◌, Text}
use osb_opengauss_go.World.{World}
use osb_opengauss_go.Broker.{Broker, Details}
use osb_opengauss_go.Broker.Handlers.{
  provision, update, deprovision, bind, unbind, fetch_instance, fetch_binding, last_operation,
  last_binding_operation,
}

pub data Request : Type 0 where
  provision_request update_request deprovision_request : Text → Details → Request
  bind_request unbind_request : Text → Text → Details → Request
  fetch_instance_request fetch_binding_request : Text → Request
  last_operation_request last_binding_operation_request : Text → Request

module _ {F I B S R : Type 0} (b : Broker F I B S R) where
  -- what a request leaves behind, whatever it answers
  unfoldable pub serve : Request → World I B S R → World I B S R
  serve (provision_request id d) w = (provision b id d w).1
  serve (update_request id d) w = (update b id d w).1
  serve (deprovision_request id d) w = (deprovision b id d w).1
  serve (bind_request instance_id id d) w = (bind b instance_id id d w).1
  serve (unbind_request instance_id id d) w = (unbind b instance_id id d w).1
  serve (fetch_instance_request id) w = (fetch_instance b id w).1
  serve (fetch_binding_request id) w = (fetch_binding b id w).1
  serve (last_operation_request id) w = (last_operation b id w).1
  serve (last_binding_operation_request id) w = (last_binding_operation b id w).1

  unfoldable pub serve_all : List Request → World I B S R → World I B S R
  unfolding serve
  serve_all [] w = w
  serve_all (r ∷ rs) w = serve_all rs (serve r w)
