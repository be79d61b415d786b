-- ===== src/Etcd/Exclusion.antt =====
-- Two processes never hold the same worker id at the same time.
use Prim.Native.String.{String}
use nebula_id.Prelude.{ℕ, ◌≡◌, ◌≢◌, refl, sym, ap, ap₂, ◌∙◌, arith, Bool, Option, some}
use nebula_id.Etcd.{Answer, ok, failed}
use nebula_id.Etcd.Server.{Server, Laws}
use nebula_id.Etcd.Worker.{
  Allocator, WorkerPath, worker_path, Phase, idle, granting, checking, writing, allocated,
  unreleased, refused, new_allocator, Node, granted, checked, written, call_in, advance, release,
}
use nebula_id.Etcd.System.{
  System, lease_of, after_release, start, Step, begins, calls, releases, expires, Steps, here,
  follows, Sound, Moves, set_node-Sound, set_node-all,
}
use nebula_id.Etcd.Moves.{Kept-refl, call_in-Moves}

abbrev Located : {W : Type 0} → (ℕ → ℕ) → System W → Type 0
Located datacenter s = (i : ℕ) → (s.node i).allocator.datacenter_id ≡ datacenter i

module _ {W : Type 0} (server : Server WorkerPath W) (laws : Laws server) where
  -- Two processes that hold ids hold them under different paths.
  apart_paths :
      (s : System W) (i j l m a b : ℕ)
      → Sound server s
      → i ≢ j
      → (s.node i).phase ≡ allocated l a
      → (s.node j).phase ≡ allocated m b
      → worker_path (s.node i).allocator a ≢ worker_path (s.node j).allocator b
  unfolding lease_of
  apart_paths s i j l m a b sound distinct h g same =
      let kept =
        sym (sound.held i l a h) ∙ ap (λ k. server.keeper k s.world) same ∙ sound.held j m b g in
      sound.apart i j l distinct (ap lease_of h) (ap lease_of g ∙ sym kept)

  release-world :
      (a : Allocator) (id : ℕ) (w : W)
      → (release server.client "" a id w).1 ≡ (server.client.kv_delete (worker_path a id) w).1
  unfolding release
  release-world a id w = ground arith

  -- A release gives its id up, whatever its answer.
  after_release-Moves :
      (n : Node) (w : W) (lease id : ℕ) (done : (Answer (Unit {0}) × Allocator) × W)
      → let (n', w') = after_release lease id done in (w' ≡ done.1) × Moves server n n' w w'
  unfolding after_release lease_of
  after_release-Moves n w lease id ((ok x, a), w') =
      (refl, record { lease = λ l h. absurd (grind arith); keeps = λ l b h. absurd (grind arith) })
  after_release-Moves n w lease id ((failed e, a), w') =
      (refl, record { lease = λ l h. absurd (grind arith); keeps = λ l b h. absurd (grind arith) })

  after_release-datacenter :
      (lease id : ℕ) (done : (Answer (Unit {0}) × Allocator) × W)
      → (after_release lease id done).0.allocator.datacenter_id ≡ done.0.1.datacenter_id
  unfolding after_release
  after_release-datacenter lease id ((ok x, a), w) = refl
  after_release-datacenter lease id ((failed e, a), w) = refl

  Step-Sound : {s s' : System W} → Step server s s' → Sound server s → Sound server s'
  unfolding lease_of advance
  Step-Sound {s = s} (begins i) sound =
      set_node-Sound server i (record (s.node i) { phase = granting }) s.world s
        (Kept-refl server laws s.world) (λ j l id other h lost. lost)
        (record { lease = λ l h. absurd (grind arith); keeps = λ l id h. absurd (grind arith) })
        sound
  Step-Sound {s = s} (calls i text) sound =
      let (kept, moves) =
        call_in-Moves server laws text (s.node i).phase (s.node i) s.world refl (sound.held i) in
      set_node-Sound server i _ _ s kept (λ j l id other h lost. lost) moves sound
  Step-Sound {s = s} (releases i lease id holds) sound =
      let done = release server.client "" (s.node i).allocator id s.world in
      let (n, w) = after_release lease id done in
      let (same_world, moves) = after_release-Moves (s.node i) s.world lease id done in
      let k = worker_path (s.node i).allocator id in
      set_node-Sound server {lost = λ j l. j ≡ k} i n w s
        (rw (same_world, release-world (s.node i).allocator id s.world)
          (laws.delete-Kept k s.world))
        (λ j l b other h same. apart_paths s i j lease l id b sound other holds h (sym same)) moves
        sound
  Step-Sound {s = s} (expires lease unused) sound =
      let kept = laws.expire-Kept lease s.world in
      record {
        issued = λ i l h. kept.remembers l (sound.issued i l h);
        apart = sound.apart;
        held = λ i l id h.
            kept.keeps _ l (λ gone. unused i (ap lease_of h ∙ ap some gone)) (sound.held i l id h);
      }

  Steps-Sound : {s s' : System W} → Steps server s s' → Sound server s → Sound server s'
  Steps-Sound here sound = sound
  Steps-Sound (follows step steps) sound = Steps-Sound steps (Step-Sound step sound)

  start-Sound : (datacenter : ℕ → ℕ) (w : W) → Sound server (start datacenter w)
  unfolding lease_of
  start-Sound datacenter w = record {
    issued = λ i l h. absurd (grind arith);
    apart = λ i j l distinct h g. grind arith;
    held = λ i l id h. absurd (grind arith);
  }

  start-Located : (datacenter : ℕ → ℕ) (w : W) → Located datacenter (start datacenter w)
  unfolding new_allocator
  start-Located datacenter w i = refl

  granted-datacenter :
      (n : Node) (done : Answer ℕ × W)
      → (granted n done).0.allocator.datacenter_id ≡ n.allocator.datacenter_id
  unfolding granted
  granted-datacenter n done = ground arith

  checked-datacenter :
      (n : Node) (l id : ℕ) (done : Answer (Option String) × W)
      → (checked n l id done).0.allocator.datacenter_id ≡ n.allocator.datacenter_id
  unfolding checked
  checked-datacenter n l id done = ground arith

  written-datacenter :
      (n : Node) (l id : ℕ) (done : Answer Bool × W)
      → (written n l id done).0.allocator.datacenter_id ≡ n.allocator.datacenter_id
  unfolding written
  written-datacenter n l id done = ground arith

  call_in-datacenter :
      (text : String) (p : Phase) (n : Node) (w : W)
      → (call_in server.client text p n w).0.allocator.datacenter_id ≡ n.allocator.datacenter_id
  unfolding call_in
  call_in-datacenter text idle n w = refl
  call_in-datacenter text granting n w = granted-datacenter n _
  call_in-datacenter text (checking l id) n w = checked-datacenter n l id _
  call_in-datacenter text (writing l id) n w = written-datacenter n l id _
  call_in-datacenter text (allocated l id) n w = refl
  call_in-datacenter text (unreleased l id) n w = refl
  call_in-datacenter text (refused e) n w = refl

  release-datacenter :
      (a : Allocator) (id : ℕ) (w : W)
      → (release server.client "" a id w).0.1.datacenter_id ≡ a.datacenter_id
  unfolding release
  release-datacenter a id w = ground arith

  Step-Located :
      {s s' : System W} (datacenter : ℕ → ℕ)
      → Step server s s'
      → Located datacenter s
      → Located datacenter s'
  unfolding advance
  Step-Located {s = s} datacenter (begins i) located =
      set_node-all (λ j x. x.allocator.datacenter_id ≡ datacenter j) i
        (record (s.node i) { phase = granting }) s.world s (located i) (λ j other. located j)
  Step-Located {s = s} datacenter (calls i text) located =
      let (n, w) = advance server.client text (s.node i) s.world in
      set_node-all (λ j x. x.allocator.datacenter_id ≡ datacenter j) i n w s
        (call_in-datacenter text (s.node i).phase (s.node i) s.world ∙ located i)
        (λ j other. located j)
  Step-Located {s = s} datacenter (releases i l id holds) located =
      let done = release server.client "" (s.node i).allocator id s.world in
      let (n, w) = after_release l id done in
      set_node-all (λ j x. x.allocator.datacenter_id ≡ datacenter j) i n w s
        (after_release-datacenter l id done
          ∙ release-datacenter (s.node i).allocator id s.world
          ∙ located i)
        (λ j other. located j)
  Step-Located datacenter (expires l unused) located = located

  Steps-Located :
      {s s' : System W} (datacenter : ℕ → ℕ)
      → Steps server s s'
      → Located datacenter s
      → Located datacenter s'
  Steps-Located datacenter here located = located
  Steps-Located datacenter (follows step steps) located =
      Steps-Located datacenter steps (Step-Located datacenter step located)

  -- However the calls of processes that allocate and release worker ids follow one another, and
  -- whichever of the calls fail, two processes of one datacenter never hold the same id: an id is
  -- held from the allocation that returned it until the process asks to release it, however that
  -- ends, or allocates again. Processes release only ids that they hold, no lease ends that a process
  -- works under or holds an id under, and the service keeps the laws.
  pub allocate-excludes :
      (datacenter : ℕ → ℕ) (w : W) (s : System W)
      → Steps server (start datacenter w) s
      → (i j l m a b : ℕ) → i ≢ j
      → datacenter i ≡ datacenter j
      → (s.node i).phase ≡ allocated l a
      → (s.node j).phase ≡ allocated m b
      → a ≢ b
  allocate-excludes datacenter w s steps i j l m a b distinct same h g equal =
      let located = Steps-Located datacenter steps (start-Located datacenter w) in
      apart_paths s i j l m a b (Steps-Sound steps (start-Sound datacenter w)) distinct h g (
        ap₂ (λ d id. record { datacenter_id = d; worker_id = id })
          (located i ∙ same ∙ sym (located j)) equal)
