-- ===== src/Tests/Offer.antt =====
-- The published catalog of the sample broker.
use osb_opengauss_go.Prelude.{ℤ, ◌≡◌, refl, In, codes, text_eq}
use osb_opengauss_go.Result.{ok}
use osb_opengauss_go.Params.{Plan}
use osb_opengauss_go.Plans.{Service, ServicePlan, load_catalog}
use osb_opengauss_go.Plans.Checked.{load_catalog-AreOffered}
use osb_opengauss_go.Prelude.{contains}
use osb_opengauss_go.Broker.{services}
use osb_opengauss_go.Broker.Handlers.{plan}
use osb_opengauss_go.Broker.Offer.{IsPublished, services-Offers, plan-IsPublished}
use osb_opengauss_go.Tests.Sample.{sample_broker, sample_plan, sample_catalog, sample_toml}

found : plan sample_broker sample_plan.id ≡ ok sample_plan
unfolding plan text_eq
found = refl

loaded : load_catalog sample_toml (codes "plans.toml") ≡ ok sample_catalog
unfolding load_catalog text_eq contains
loaded = refl

plan-IsPublished_example :
    (service : Service ℤ) × (s : ServicePlan ℤ) × In service (services sample_broker)
    × In s service.plans
    × (service.id ≡ sample_catalog.service.service_id)
    × (service.name ≡ sample_catalog.service.name)
    × (s.id ≡ sample_plan.id)
    × IsPublished sample_plan s
plan-IsPublished_example = plan-IsPublished sample_broker sample_plan.id sample_plan found

abbrev published_service : Service ℤ
published_service = (plan-IsPublished sample_broker sample_plan.id sample_plan found).0

abbrev published_plan : ServicePlan ℤ
published_plan = (plan-IsPublished sample_broker sample_plan.id sample_plan found).1

services-Offers_example :
    (published_service.id ≡ sample_catalog.service.service_id)
    × (p : Plan) × (plan sample_broker published_plan.id ≡ ok p)
    × IsPublished p published_plan
services-Offers_example =
    services-Offers sample_broker published_service published_plan
      (load_catalog-AreOffered sample_toml (codes "plans.toml") sample_catalog loaded).2.ids
      (plan-IsPublished sample_broker sample_plan.id sample_plan found).2
      (plan-IsPublished sample_broker sample_plan.id sample_plan found).3
