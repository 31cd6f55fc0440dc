-- ===== src/Api/Meta.antt =====
-- The metadata that the objects of all kinds have.
use cluster_api_actuator_pkg.Api.{ObjectMeta, Kind, Object}

abbrev pub meta_of : (k : Kind) → Object k → ObjectMeta
meta_of Kind.a_node o = o.meta
meta_of Kind.a_machine o = o.meta
meta_of Kind.a_machine_set o = o.meta
meta_of Kind.a_machine_health_check o = o.meta
meta_of Kind.a_deployment o = o.meta
meta_of Kind.a_pod o = o.meta
meta_of Kind.a_replication_controller o = o.meta
meta_of Kind.a_pod_disruption_budget o = o.meta
meta_of Kind.a_job o = o.meta
meta_of Kind.a_cluster_autoscaler o = o.meta
meta_of Kind.a_machine_autoscaler o = o.meta
meta_of Kind.an_infrastructure o = o.meta
meta_of Kind.a_cluster_operator o = o.meta
meta_of Kind.an_event o = o.meta
meta_of Kind.a_webhook o = o.meta
