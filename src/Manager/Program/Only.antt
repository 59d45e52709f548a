-- ===== src/Manager/Program/Only.antt =====
-- Programs all of whose commands have a property, whatever the answers are.
use litellm_gateway.Prelude.{Bool, true, false, String, List, [], ◌∷◌, if◌then◌else◌}
use litellm_gateway.Manager.State.{Result, ok, err}
use litellm_gateway.Manager.State.History.{Call}
use litellm_gateway.Manager.Program.{
  Error, Reply, replied, failed, Command, stores, reads, looks, docker, runner, clock, fresh_hex,
  acquires, releases, spawns, Answer, Program, done, raises, call, ◌>>=◌, ◌>>◌, rescue, rescue_if,
  suppress, finally, unless, when, each, or_raise, or_fail, store, ask, look, dockered, runs, now,
  hex, spawn, locked, Task, Query, TableCall, DockerCall, RunnerCall,
}

module _ (P : Command → Type 0) where
  pub Holds : {A : Type 0} → Program A → Type 0
  Holds (done a) = Unit
  Holds (raises e) = Unit
  Holds (call c k) = P c × ((x : Answer c) → Holds (k x))

  bind-Holds :
      {A B : Type 0} (m : Program A) (f : A → Program B)
      → Holds m
      → ((a : A) → Holds (f a))
      → Holds (m >>= f)
  unfolding Holds ◌>>=◌
  bind-Holds (done a) f h k = k a
  bind-Holds (raises e) f h k = tt
  bind-Holds (call c r) f h k = (h.0, λ x. bind-Holds (r x) f (h.1 x) k)

  rescue-Holds :
      {A : Type 0} (m : Program A) (h : Error → Program A)
      → Holds m
      → ((e : Error) → Holds (h e))
      → Holds (rescue m h)
  unfolding Holds rescue
  rescue-Holds (done a) h p k = tt
  rescue-Holds (raises e) h p k = k e
  rescue-Holds (call c r) h p k = (p.0, λ x. rescue-Holds (r x) h (p.1 x) k)

pub record Only (P : Command → Type 0) {A : Type 0} (m : Program A) : Type 0 where
  pub only : Holds P m

module _ {P : Command → Type 0} where
  pub done-Only : {A : Type 0} (a : A) → Only P (done a)
  unfolding Holds
  done-Only a = record { only = tt }

  pub raises-Only : {A : Type 0} (e : Error) → Only P {A = A} (raises e)
  unfolding Holds
  raises-Only e = record { only = tt }

  pub call-Only :
      {A : Type 0} (c : Command) (k : Answer c → Program A)
      → P c
      → ((x : Answer c) → Only P (k x))
      → Only P (call c k)
  unfolding Holds
  call-Only c k p h = record { only = (p, λ x. (h x).only) }

  pub command-Only : {A : Type 0} (c : Command) (k : Answer c → Program A) → Only P (call c k) → P c
  unfolding Holds
  command-Only c k h = h.only.0

  pub answered-Only :
      {A : Type 0} (c : Command) (k : Answer c → Program A)
      → Only P (call c k)
      → (x : Answer c) → Only P (k x)
  unfolding Holds
  answered-Only c k h x = record { only = h.only.1 x }

  pub bind-Only :
      {A B : Type 0} (m : Program A) (f : A → Program B)
      → Only P m
      → ((a : A) → Only P (f a))
      → Only P (m >>= f)
  bind-Only m f h k = record { only = bind-Holds P m f h.only (λ a. (k a).only) }

  pub rescue-Only :
      {A : Type 0} (m : Program A) (h : Error → Program A)
      → Only P m
      → ((e : Error) → Only P (h e))
      → Only P (rescue m h)
  rescue-Only m h p k = record { only = rescue-Holds P m h p.only (λ e. (k e).only) }

  pub then-Only :
      {A : Type 0} (m : Program (Unit {0})) (n : Program A) → Only P m → Only P n → Only P (m >> n)
  unfolding ◌>>◌
  then-Only m n h k = bind-Only m (λ _. n) h (λ _. k)

  pub if-Only :
      {A : Type 0} (b : Bool) (m n : Program A) → Only P m → Only P n → Only P (if b then m else n)
  if-Only true m n h k = h
  if-Only false m n h k = k

  pub rescue_if-Only :
      {A : Type 0} (test : Error → Bool) (m : Program A) (h : Error → Program A)
      → Only P m
      → ((e : Error) → Only P (h e))
      → Only P (rescue_if test m h)
  unfolding rescue_if
  rescue_if-Only test m h p k =
      rescue-Only m _ p (λ e. if-Only (test e) (h e) (raises e) (k e) (raises-Only e))

  pub suppress-Only :
      (test : Error → Bool) (m : Program (Unit {0})) → Only P m → Only P (suppress test m)
  unfolding suppress
  suppress-Only test m p = rescue_if-Only test m _ p (λ e. done-Only tt)

  pub finally-Only :
      {A : Type 0} (m : Program A) (r : Program (Unit {0}))
      → Only P m
      → Only P r
      → Only P (finally m r)
  unfolding finally
  finally-Only m r p q =
      bind-Only _ _ (rescue-Only m _ p (λ e. bind-Only r _ q (λ _. raises-Only e)))
        (λ a. bind-Only r _ q (λ _. done-Only a))

  pub unless-Only : (b : Bool) (e : Error) → Only P (unless b e)
  unfolding unless
  unless-Only b e = if-Only b _ _ (done-Only tt) (raises-Only e)

  pub when-Only : (b : Bool) (m : Program (Unit {0})) → Only P m → Only P (when b m)
  unfolding when
  when-Only b m p = if-Only b _ _ p (done-Only tt)

  pub each-Only :
      {A : Type 0} (xs : List A) (body : A → Program (Unit {0}))
      → ((x : A) → Only P (body x))
      → Only P (each xs body)
  unfolding each
  each-Only [] body h = done-Only tt
  each-Only (x ∷ xs) body h = bind-Only (body x) _ (h x) (λ _. each-Only xs body h)

  pub or_raise-Only : {A : Type 0} (r : Result A) → Only P (or_raise r)
  or_raise-Only (ok a) = done-Only a
  or_raise-Only (err e) = raises-Only _

  pub or_fail-Only : {A : Type 0} (r : Reply A) → Only P (or_fail r)
  or_fail-Only (replied a) = done-Only a
  or_fail-Only (failed e) = raises-Only _

  pub store-Only : (c : Call) → P (stores c) → Only P (store c)
  unfolding store
  store-Only c p = call-Only (stores c) _ p (λ x. or_raise-Only x)

  pub ask-Only : (q : Query) → P (reads q) → Only P (ask q)
  unfolding ask
  ask-Only q p = call-Only (reads q) _ p (λ x. done-Only x)

  pub look-Only : (t : TableCall) → P (looks t) → Only P (look t)
  unfolding look
  look-Only t p = call-Only (looks t) _ p (λ x. done-Only x)

  pub dockered-Only : (d : DockerCall) → P (docker d) → Only P (dockered d)
  unfolding dockered
  dockered-Only d p = call-Only (docker d) _ p (λ x. or_fail-Only x)

  pub runs-Only : (r : RunnerCall) → P (runner r) → Only P (runs r)
  unfolding runs
  runs-Only r p = call-Only (runner r) _ p (λ x. or_fail-Only x)

  pub now-Only : P clock → Only P now
  unfolding now
  now-Only p = call-Only clock _ p (λ x. done-Only x)

  pub hex-Only : P fresh_hex → Only P hex
  unfolding hex
  hex-Only p = call-Only fresh_hex _ p (λ x. done-Only x)

  pub spawn-Only : (t : Task) → P (spawns t) → Only P (spawn t)
  unfolding spawn
  spawn-Only t p = call-Only (spawns t) _ p (λ x. done-Only x)

  pub locked-Only :
      {A : Type 0} (k : String) (m : Program A)
      → P (acquires k)
      → P (releases k)
      → Only P m
      → Only P (locked k m)
  unfolding locked
  locked-Only k m p q h = call-Only (acquires k) _ p (λ x.
      bind-Only (or_fail x) _ (or_fail-Only x)
        (λ _. finally-Only m _ h (call-Only (releases k) _ q (λ y. done-Only y))))

pub ruleset only_rules = (
  bind-Only, then-Only, done-Only, raises-Only, rescue-Only, rescue_if-Only, suppress-Only,
  finally-Only, unless-Only, when-Only, if-Only, each-Only, or_raise-Only, store-Only, ask-Only,
  look-Only, dockered-Only, runs-Only, now-Only, hex-Only, spawn-Only, locked-Only, tt,
)
