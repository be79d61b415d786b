-- ===== src/AlgorithmRouter/Supply.antt =====
-- With a UUID algorithm at the end of the fallback chain, no request goes without an id.
use Prim.Native.String.{String}
use nebula_id.Prelude.{
  ℕ, ◌≡◌, ◌≢◌, refl, ◌∙◌, arith, List, [], ◌∷◌, Option, none, some, ◌⊎◌, inl, inr,
}
use nebula_id.Prelude.Assoc.{get, get-put}
use nebula_id.Types.{AlgorithmType, Result, ok, err, answered, Result-cases}
use nebula_id.Degradation.State.{alg_eq}
use nebula_id.Degradation.Flags.{Op}
use nebula_id.AlgorithmRouter.{
  Router, Algorithms, chain_of, new_router, install, install_each, register, started, initialize,
  set_algorithm, generate,
}
use nebula_id.AlgorithmRouter.Attempts.{
  Tried, exhausted, unregistered, serves, fails, generate-Tried,
}

abbrev Among : AlgorithmType → List AlgorithmType → Type 0
Among a [] = ⊥
Among a (b ∷ rest) = (a ≡ b) ⊎ Among a rest

-- `AlgorithmRouter` in use: requests, and changes of a tag's algorithm.
pub data Event : Type 0 where
  requests : String → Event
  sets : String → AlgorithmType → Event

abbrev Ready : {Alg : Type 0} → AlgorithmType → Alg → Router Alg → Type 0
Ready a alg r = (get a r.algorithms ≡ some alg) × Among a r.fallback_chain

module _ {Alg : Type 0} (build : AlgorithmType → Result Alg) where
  install-chain :
      (r : Router Alg) (a : AlgorithmType) (built : Result Alg)
      → (install r a built).fallback_chain ≡ r.fallback_chain
  unfolding install register
  install-chain r a (ok alg) = refl
  install-chain r a (err e) = refl

  install_each-chain :
      (order : List AlgorithmType) (r : Router Alg)
      → (install_each build order r).fallback_chain ≡ r.fallback_chain
  unfolding install_each
  install_each-chain [] r = refl
  install_each-chain (a ∷ order) r =
      install_each-chain order (install r a (build a)) ∙ install-chain r a (build a)

  started-rest : (r : Router Alg) → (started r).1 ≡ r
  unfolding started
  started-rest r = ground arith

  chain_of-Among :
      (a : AlgorithmType)
      → (a ≡ AlgorithmType.segment) ⊎ (a ≡ AlgorithmType.snowflake)
      → Among AlgorithmType.uuid_v4 (chain_of a)
  unfolding chain_of
  chain_of-Among AlgorithmType.segment either = inr (inr (inl refl))
  chain_of-Among AlgorithmType.snowflake either = inr (inl refl)
  chain_of-Among AlgorithmType.uuid_v7 either = absurd (grind arith)
  chain_of-Among AlgorithmType.uuid_v4 either = absurd (grind arith)

  install-get :
      (r : Router Alg) (a : AlgorithmType) (alg : Alg) (built : Result Alg)
      → built ≡ ok alg
      → get a (install r a built).algorithms ≡ some alg
  unfolding install register
  install-get r a alg built h =
      rw h (ground (arith, get-put a a alg r.algorithms, alg_eq.same_iff a a))

  initialize-Ready :
      (now : ℕ) (default_algorithm : AlgorithmType) (alg : Alg)
      → (default_algorithm ≡ AlgorithmType.segment) ⊎ (default_algorithm ≡ AlgorithmType.snowflake)
      → build AlgorithmType.uuid_v4 ≡ ok alg
      → Ready AlgorithmType.uuid_v4 alg (initialize build (new_router now default_algorithm)).1
  unfolding initialize install_each new_router
  initialize-Ready now default_algorithm alg either built =
      let order =
        AlgorithmType.segment ∷ AlgorithmType.snowflake ∷ AlgorithmType.uuid_v7
        ∷ AlgorithmType.uuid_v4 ∷ [] in
      let r = new_router now default_algorithm in
      rw (started-rest (install_each build order r)) (
        install-get
            (install_each build
              (AlgorithmType.segment ∷ AlgorithmType.snowflake ∷ AlgorithmType.uuid_v7 ∷ []) r)
            AlgorithmType.uuid_v4 alg (build AlgorithmType.uuid_v4) built,
        rw (install_each-chain order r) (chain_of-Among default_algorithm either),
      )

module _ {Alg A W : Type 0} (clock : W → ℕ) (call : Alg → W → Result A × W) where
  unfoldable pub happens : Event → Router Alg × W → Router Alg × W
  happens (requests biz_tag) (r, w) = (generate clock call biz_tag r w).1
  happens (sets biz_tag a) (r, w) = (set_algorithm r biz_tag a, w)

  unfoldable pub happen : List Event → Router Alg × W → Router Alg × W
  happen [] s = s
  happen (e ∷ es) s = happen es (happens e s)

  abbrev pub AlwaysServes : Alg → Type 0
  AlwaysServes alg = (w : W) → (id : A) × ((call alg w).0 ≡ ok id)

  Tried-some :
      (algorithms : Algorithms Alg) (a : AlgorithmType) (alg : Alg)
      → get a algorithms ≡ some alg
      → AlwaysServes alg
      → {order : List AlgorithmType} {w w' : W} {log : List (ℕ × Op)} {id : Option A}
      → Tried clock call algorithms order w log id w'
      → Among a order
      → id ≢ none
  Tried-some algorithms a alg found always exhausted among = λ h. among
  Tried-some algorithms a alg found always (unregistered missing tried) (inl here) =
      λ h. grind arith
  Tried-some algorithms a alg found always (unregistered missing tried) (inr there) =
      Tried-some algorithms a alg found always tried there
  Tried-some algorithms a alg found always (serves present answer) among = λ h. grind arith
  Tried-some algorithms a alg found always (fails {w = w} present answer tried) (inl here) =
      λ h. let (i, served) = always w in grind arith
  Tried-some algorithms a alg found always (fails present answer tried) (inr there) =
      Tried-some algorithms a alg found always tried there

  happen-Ready :
      (a : AlgorithmType) (alg : Alg) (es : List Event) (r : Router Alg) (w : W)
      → Ready a alg r
      → Ready a alg (happen es (r, w)).0
  unfolding happen happens generate set_algorithm
  happen-Ready a alg [] r w ready = ready
  happen-Ready a alg (requests biz_tag ∷ es) r w ready =
      let done = generate clock call biz_tag r w in happen-Ready a alg es done.1.0 done.1.1 ready
  happen-Ready a alg (sets biz_tag b ∷ es) r w ready =
      happen-Ready a alg es (set_algorithm r biz_tag b) w ready

  generate-Ready :
      (a : AlgorithmType) (alg : Alg) (r : Router Alg) (biz_tag : String) (w : W)
      → AlwaysServes alg
      → Ready a alg r
      → (id : A) × ((generate clock call biz_tag r w).0 ≡ ok id)
  unfolding answered
  generate-Ready a alg r biz_tag w always (found, among) =
      let (log, tried, told, blamed) = generate-Tried clock call r biz_tag w in
      elim (Result-cases (generate clock call biz_tag r w).0) [
        | inl served ↦ served
        | inr (e, failed) ↦
            absurd (Tried-some r.algorithms a alg found always tried (inr among) (rw failed refl))
      ]

  -- On a router started with segments or Snowflake as the default, with UUID v4 built and never
  -- failing, every request is given an id, however the other algorithms fail, and whatever was
  -- asked for and set before.
  pub initialize-serves :
      (build : AlgorithmType → Result Alg) (now : ℕ) (default_algorithm : AlgorithmType) (alg : Alg)
      → (default_algorithm ≡ AlgorithmType.segment) ⊎ (default_algorithm ≡ AlgorithmType.snowflake)
      → build AlgorithmType.uuid_v4 ≡ ok alg
      → AlwaysServes alg
      → (es : List Event) (biz_tag : String) (w : W)
      → let (r, w') = happen es ((initialize build (new_router now default_algorithm)).1, w) in
        (id : A) × ((generate clock call biz_tag r w').0 ≡ ok id)
  initialize-serves build now default_algorithm alg either built always es biz_tag w =
      let r = (initialize build (new_router now default_algorithm)).1 in
      let ready =
        happen-Ready AlgorithmType.uuid_v4 alg es r w
          (initialize-Ready build now default_algorithm alg either built) in
      let (r', w') = happen es (r, w) in
      generate-Ready AlgorithmType.uuid_v4 alg r' biz_tag w' always ready
