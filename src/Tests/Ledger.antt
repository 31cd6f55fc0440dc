-- ===== src/Tests/Ledger.antt =====
-- A cluster that knows what the suite owns: its world is the list of these objects.
mod Runs
use cluster_api_actuator_pkg.Base.{
  ℕ, ◌≡◌, ◌≢◌, ◌⊎◌, inl, inr, refl, sym, ap, subst, ◌∙◌, Bool, true, false, not, ◌||◌, ◌&&◌, Option,
  none, some, List, [], ◌∷◌, String, ◌<>◌, ◌=s◌, =s_iff, Bool-cases, if◌then◌else◌, arith,
}
use cluster_api_actuator_pkg.Base.Int.{pos}
use cluster_api_actuator_pkg.Api.{
  Error, api, plain, Result, ok, err, named, Machine, MachineSet, MachineAutoscaler,
  ClusterAutoscaler, Kind, Object, ObjectKey, ListOption,
}
use cluster_api_actuator_pkg.Api.Meta.{meta_of}
use cluster_api_actuator_pkg.Monad.{M, Outcome, returned, stopped, pure, stop, assertion, ◌>>=◌}
use cluster_api_actuator_pkg.Env.{Env}
use cluster_api_actuator_pkg.Autoscaler.Resources.{workload_job_name}
use cluster_api_actuator_pkg.Autoscaler.Waits.{AnyObject}
use cluster_api_actuator_pkg.Autoscaler.Ownership.{name_of, Ledger}
use cluster_api_actuator_pkg.Autoscaler.Ownership.Emptied.{Among}
use cluster_api_actuator_pkg.Sim.{not_found}
use cluster_api_actuator_pkg.Tests.Fixtures.{node0, machine0, set0}

-- An object of the suite has this name.
abbrev taken : String → List AnyObject → Bool
taken name [] = false
taken name (x ∷ xs) = let rest = taken name xs in if name_of x =s name then true else rest

abbrev without : String → List AnyObject → List AnyObject
without name [] = []
without name (x ∷ xs) = let rest = without name xs in if name_of x =s name then rest else x ∷ rest

-- The API makes a name for a machine autoscaler that has none.
abbrev autoscaler_name : MachineAutoscaler → MachineAutoscaler
autoscaler_name asr =
    let meta = asr.meta in
    if meta.name =s ""
    then record asr { meta = record meta { name = meta.generate_name <> "-x" } }
    else asr

abbrev fill : (k : Kind) → Object k → Object k
fill Kind.a_machine_autoscaler o = autoscaler_name o
fill Kind.a_node o = o
fill Kind.a_machine o = o
fill Kind.a_machine_set o = o
fill Kind.a_machine_health_check o = o
fill Kind.a_deployment o = o
fill Kind.a_pod o = o
fill Kind.a_replication_controller o = o
fill Kind.a_pod_disruption_budget o = o
fill Kind.a_job o = o
fill Kind.a_cluster_autoscaler o = o
fill Kind.an_infrastructure o = o
fill Kind.a_cluster_operator o = o
fill Kind.an_event o = o
fill Kind.a_webhook o = o

autoscaler_name-given :
    (o : MachineAutoscaler) → (o.meta.name =s "") ≡ false → autoscaler_name o ≡ o
autoscaler_name-given o h = ground arith

fill-given : (k : Kind) (o : Object k) → (name_of (k, o) =s "") ≡ false → fill k o ≡ o
fill-given Kind.a_machine_autoscaler o h = autoscaler_name-given o h
fill-given Kind.a_node o h = refl
fill-given Kind.a_machine o h = refl
fill-given Kind.a_machine_set o h = refl
fill-given Kind.a_machine_health_check o h = refl
fill-given Kind.a_deployment o h = refl
fill-given Kind.a_pod o h = refl
fill-given Kind.a_replication_controller o h = refl
fill-given Kind.a_pod_disruption_budget o h = refl
fill-given Kind.a_job o h = refl
fill-given Kind.a_cluster_autoscaler o h = refl
fill-given Kind.an_infrastructure o h = refl
fill-given Kind.a_cluster_operator o h = refl
fill-given Kind.an_event o h = refl
fill-given Kind.a_webhook o h = refl

-- A name can be had once, and must be there.
abbrev refused : AnyObject → List AnyObject → Bool
refused x w = taken (name_of x) w || name_of x =s ""

-- With the workload, the machine set has three machines.
abbrev machines : List AnyObject → List Machine
machines w = if taken workload_job_name w then machine0 ∷ machine0 ∷ machine0 ∷ [] else []

abbrev machine_set : List AnyObject → MachineSet
machine_set w = record set0 { replicas = some (if taken workload_job_name w then pos 3 else pos 0) }

abbrev autoscaler : List AnyObject → Result ClusterAutoscaler
autoscaler [] = err not_found
autoscaler ((Kind.a_cluster_autoscaler, o) ∷ w) = ok o
autoscaler (_ ∷ w) = autoscaler w

abbrev read : (k : Kind) → List AnyObject → Result (Object k)
read Kind.an_infrastructure w =
    ok (record { meta = named "cluster" "" []; infrastructure_name = "c0"; platform = "AWS" })
read Kind.a_machine_set w = ok (machine_set w)
read Kind.a_node w = ok node0
read Kind.a_cluster_autoscaler w = autoscaler w
read _ w = err not_found

abbrev listing : (k : Kind) → List AnyObject → List (Object k)
listing Kind.a_machine_set w = machine_set w ∷ []
listing Kind.a_machine w = machines w
listing Kind.a_node w = node0 ∷ []
listing _ w = []

abbrev look_once : {W S A : Type 0} → (S → M W (A × S)) → (A → Bool) → S → M W S
look_once f matcher s = f s >>= λ (a, s'). if matcher a then pure s' else stop assertion

abbrev create_answer :
    Bool → (k : Kind) → Object k → List AnyObject → Result (Object k) × List AnyObject
create_answer true k o w = (err not_found, w)
create_answer false k o w = (ok o, (k, o) ∷ w)

abbrev delete_answer : Bool → String → List AnyObject → Option Error × List AnyObject
delete_answer true name w = (none, without name w)
delete_answer false name w = (some not_found, w)

abbrev pub books : Env
books = record {
  World = List AnyObject;
  now = λ w. 0;
  unix_nano = λ w. 0;
  new_uuid = λ w. ("0123456789ab", w);
  get = λ k key w. (read k w, w);
  list = λ k opts w. (ok (listing k w), w);
  create = λ k o w. create_answer (refused (k, fill k o) w) k (fill k o) w;
  update = λ k o w. (ok o, w);
  delete = λ k o foreground w. delete_answer (taken (name_of (k, o)) w) (name_of (k, o)) w;
  patch_status = λ k o base w. (none, w);
  scale_client = λ w. (none, w);
  get_scale = λ key w. (err not_found, w);
  update_scale = λ ns scale w. (none, w);
  poll_immediate = λ S interval timeout cond s w. (returned (some not_found, s), w);
  eventually = λ S A timeout interval f matcher. look_once f matcher;
  pointer_text = "824633720832";
  selector_error = λ s. none;
  is_controlled_by = λ o owner. false;
  is_not_found = λ e. elim e [ none ↦ false | some _ ↦ true ];
  split_meta_namespace_key = λ key. err not_found;
  is_status_condition_true = λ cs type. false;
  is_status_condition_false = λ cs type. false;
}

without-Among :
    (name : String) (w : List AnyObject) (x : AnyObject)
    → Among x (without name w)
    → Among x w × (name_of x ≢ name)
without-Among name [] x h = absurd h
without-Among name (y ∷ ys) x h = keep (name_of y =s name) refl (without-Among name ys x) h
  where
    keep :
        (b : Bool)
        → (name_of y =s name) ≡ b
        → (Among x (without name ys) → Among x ys × (name_of x ≢ name))
        → Among x (if b then without name ys else y ∷ without name ys)
        → Among x (y ∷ ys) × (name_of x ≢ name)
    keep true e rest h = let (old, differs) = rest h in (inr old, differs)
    keep false e rest (inl here) =
        (inl here, λ same. absurd (ground (arith, =s_iff (name_of y) name, ap name_of here)))
    keep false e rest (inr h) = let (old, differs) = rest h in (inr old, differs)

create_answer-ok :
    (b : Bool) (k : Kind) (o : Object k) (w : List AnyObject) {o' : Object k}
    → (create_answer b k o w).0 ≡ ok o'
    → (b ≡ false) × (o ≡ o')
create_answer-ok true k o w q = absurd (cc)
create_answer-ok false k o w q = (refl, cc)

create_answer-Among :
    (b : Bool) (k : Kind) (o : Object k) (w : List AnyObject) {o' : Object k} {w' : List AnyObject}
    → create_answer b k o w ≡ (ok o', w')
    → Among (k, o') w'
create_answer-Among true k o w q = absurd (cc)
create_answer-Among false k o w {o'} q =
    subst (λ v. Among (k, o') v) (ap (λ r. r.1) q)
      (inl (ap (λ y. (k, y)) (sym (create_answer-ok false k o w (ap (λ r. r.0) q)).1)))

create_answer-new :
    (b : Bool) (k : Kind) (o : Object k) (w : List AnyObject) (x : AnyObject)
    → Among x (create_answer b k o w).1
    → Among x w ⊎ ((o' : Object k) × ((create_answer b k o w).0 ≡ ok o') × (x ≡ (k, o')))
create_answer-new true k o w x h = inl h
create_answer-new false k o w x (inl here) = inr (o, refl, here)
create_answer-new false k o w x (inr h) = inl h

delete_answer-Among :
    (b : Bool) (k : Kind) (o : Object k) (w : List AnyObject) (x : AnyObject)
    → Among x (delete_answer b (name_of (k, o)) w).1
    → Among x w × ((delete_answer b (name_of (k, o)) w).0 ≡ none → x ≢ (k, o))
delete_answer-Among true k o w x h =
    let (old, differs) = without-Among _ w x h in (old, λ gone same. differs (ap name_of same))
delete_answer-Among false k o w x h = (h, λ gone. absurd (cc))

accepted :
    (k : Kind) (o : Object k) (w : List AnyObject) {o' : Object k}
    → (books.create k o w).0 ≡ ok o'
    → (refused (k, o') w ≡ false) × (fill k o ≡ o')
accepted k o w q =
    let (free, same) = create_answer-ok (refused (k, fill k o) w) k (fill k o) w q in
    (ap (λ y. refused (k, y) w) (sym same) ∙ free, same)

autoscaler_name-generated :
    (o : MachineAutoscaler)
    → (o.meta.name =s "") ≡ true
    → (autoscaler_name o).meta.name ≡ o.meta.generate_name <> "-x"
autoscaler_name-generated o h = ground arith

-- Only the machine autoscalers are given a name: all other objects need one.
fill-generated :
    (k : Kind) (o : Object k)
    → (name_of (k, o) =s "") ≡ true
    → (name_of (k, fill k o) =s "") ≡ false
    → (suffix : String) × (name_of (k, fill k o) ≡ (meta_of k o).generate_name <> suffix)
fill-generated Kind.a_machine_autoscaler o h some_name = ("-x", autoscaler_name-generated o h)
fill-generated Kind.a_node o h some_name = absurd (cc)
fill-generated Kind.a_machine o h some_name = absurd (cc)
fill-generated Kind.a_machine_set o h some_name = absurd (cc)
fill-generated Kind.a_machine_health_check o h some_name = absurd (cc)
fill-generated Kind.a_deployment o h some_name = absurd (cc)
fill-generated Kind.a_pod o h some_name = absurd (cc)
fill-generated Kind.a_replication_controller o h some_name = absurd (cc)
fill-generated Kind.a_pod_disruption_budget o h some_name = absurd (cc)
fill-generated Kind.a_job o h some_name = absurd (cc)
fill-generated Kind.a_cluster_autoscaler o h some_name = absurd (cc)
fill-generated Kind.an_infrastructure o h some_name = absurd (cc)
fill-generated Kind.a_cluster_operator o h some_name = absurd (cc)
fill-generated Kind.an_event o h some_name = absurd (cc)
fill-generated Kind.a_webhook o h some_name = absurd (cc)

look_once-Among :
    {S A : Type 0} (matcher : A → Bool) (r : Outcome (A × S) × List AnyObject) (x : AnyObject)
    → (let (o, v) =
          ((λ (_ : List AnyObject). r) >>= λ (a, s'). if matcher a then pure s' else stop assertion)
            [] in
        Among x v)
    → Among x r.1
look_once-Among matcher (returned (a, s), w) x = verdict (matcher a)
  where
    verdict : (b : Bool) → Among x ((if b then pure s else stop assertion) w).1 → Among x w
    verdict true h = h
    verdict false h = h
look_once-Among matcher (stopped s, w) x = λ h. h

pub books_ledger : Ledger books
books_ledger = record {
  Owned = λ w x. Among x w;
  created = λ k o w q. create_answer-Among (refused (k, fill k o) w) k (fill k o) w q;
  only_created = λ k o w x h. create_answer-new (refused (k, fill k o) w) k (fill k o) w x h;
  given_name = λ k o w q some_name.
      ap (λ y. name_of (k, y)) (sym (accepted k o w q).1 ∙ fill-given k o some_name);
  generated_name = λ k o w {o'} q unnamed.
      let (free, same) = accepted k o w q in
      let some_name : (name_of (k, o') =s "") ≡ false = ground (arith, free) in
      let (suffix, made) =
        fill-generated k o unnamed (ap (λ y. name_of (k, y) =s "") same ∙ some_name) in
      (suffix, ap (λ y. name_of (k, y)) (sym same) ∙ made);
  deleted = λ k o foreground w x h. delete_answer-Among (taken (name_of (k, o)) w) k o w x h;
  got = λ k key w x h. h;
  listed = λ k opts w x h. h;
  drawn = λ w x h. h;
  waited = λ S A interval timeout f matcher keeps s w x h.
      keeps s w x (look_once-Among matcher (f s w) x h);
}
