-- ===== src/Ring/Opens.antt =====
-- Opening and releasing the ring files: who holds what.
use standalone_linux_io_trac.Base.{
  ℕ, ◌+◌, ◌^◌, ◌<◌, ◌≡◌, refl, sym, ◌∙◌, subst, some_eq, Bool, true, List, ◌∷◌, ◌++◌, some, arith,
  length, elem, count, Distinct,
}
use standalone_linux_io_trac.Kernel.{Result}
use standalone_linux_io_trac.Context.{BlockDevice}
use standalone_linux_io_trac.Client.{Client, Platform}
use standalone_linux_io_trac.Client.Sessions.{Session}
use standalone_linux_io_trac.Client.Detach.{detach_client-Detached}
use standalone_linux_io_trac.Ring.{Files, iotrace_open, release}
use standalone_linux_io_trac.Ring.Held.{
  System, Consistent, behind_open, iotrace_open-Consistent, kref_put_more, count_mid, length_mid,
  count_le, left, left-Consistent,
}

module _ {T : Type 0} (dev : ℕ → BlockDevice) (cpus : List ℕ) (d : Distinct cpus) where
  -- One call: an open that succeeds or fails, the release of an open file, or anything else, such
  -- as a write to a management file, that keeps the clients' session and their number.
  pub data Step : System T → System T → Type 0 where
    opens :
        (x : System T) (k : Platform T) (get for_writing writeable : Bool) (cpu : ℕ)
        (out : Files T × Result (Unit {0}))
        → elem cpu cpus ≡ true
        → length x.open_files + 2 < 2 ^ 32
        → iotrace_open k get cpus cpu for_writing writeable x.files ≡ some out
        → Step x (behind_open dev cpus x cpu out)
    releases :
        (s s' : Files T) (cpu on : ℕ) (before after : List ℕ)
        → elem on cpus ≡ true
        → release cpus cpu on s ≡ some s'
        → Step
            (record { files = s; open_files = before ++ cpu ∷ after })
            (record { files = s'; open_files = before ++ after })
    manages :
        (x : System T) (ds : List ℕ) (client : Client T)
        → Session dev cpus ds client
        → client.ctx.trace_state.clients ≡ x.files.client.ctx.trace_state.clients
        → Step x (record x { files = record (x.files) { client = client } })

  pub data Reach (x : System T) : System T → Type 0 where
    here : Reach x x
    next : {y z : System T} → Reach x y → Step y z → Reach x z

  -- An open file can always be released, on any online CPU, and the state stays consistent.
  pub release-Consistent :
      (s : Files T) (cpu on : ℕ) (before after : List ℕ)
      → Consistent dev cpus (record { files = s; open_files = before ++ cpu ∷ after })
      → elem on cpus ≡ true
      → (s' : Files T) × (release cpus cpu on s ≡ some s')
        × Consistent dev cpus (record { files = s'; open_files = before ++ after })
  unfolding release
  release-Consistent s cpu on before after v up =
      let (ds, session) = v.session in
      let (client, run, (session', less, areas)) =
        detach_client-Detached dev cpus d on ds s.client session up
          (omega (arith, v.clients, length_mid cpu before after)) in
      let n = count cpu (before ++ after) in
      let m = count_mid cpu cpu before after in
      let here : elem cpu cpus ≡ true = v.online cpu (ground (arith, m)) in
      let put =
        kref_put_more dev cpus cpu (record s { client = client }) n
          (ground (arith, v.refs cpu here, m))
          (omega (arith, v.bounded, length_mid cpu before after, count_le cpu (before ++ after))) in
      (
        left dev cpus s cpu n client,
        rw run (rw put refl),
        left-Consistent dev cpus s cpu before after _ client v session' less,
      )

  Step-Consistent : {x y : System T} → Step x y → Consistent dev cpus x → Consistent dev cpus y
  Step-Consistent (opens x k get w r cpu out on b run) v =
      let (out', run', v') = iotrace_open-Consistent dev cpus x k get w r cpu v on b in
      subst (λ o. Consistent dev cpus (behind_open dev cpus x cpu o)) (some_eq (sym run' ∙ run)) v'
  Step-Consistent (releases s s' cpu on before after up run) v =
      let (t, run', v') = release-Consistent s cpu on before after v up in
      subst (λ o. Consistent dev cpus (record { files = o; open_files = before ++ after }))
        (some_eq (sym run' ∙ run)) v'
  Step-Consistent (manages x ds client session same) v = record {
    session = (ds, session);
    bounded = v.bounded;
    clients = same ∙ v.clients;
    module_refs = v.module_refs;
    refs = v.refs;
    inited = v.inited;
    consumer_hdr = v.consumer_hdr;
    online = v.online;
  }

  -- However the ring files are opened and released, also in vain and while fewer than
  -- 2 ^ 32 - 2 of them are open, with other calls that keep the session between them, from a
  -- consistent state: there are as many clients and
  -- references to the module as open files, the memory of every CPU's file has one reference for
  -- each open file and one for the module, and is not freed, and the clients' session holds.
  pub Reach-Consistent :
      {x y : System T} → Reach x y → Consistent dev cpus x → Consistent dev cpus y
  Reach-Consistent here v = v
  Reach-Consistent (next r st) v = Step-Consistent st (Reach-Consistent r v)

  -- However a consistent state `y` was reached by such calls, every open file can be released on
  -- any online CPU, and its release comes back with the state consistent.
  pub Reach-release :
      (x y : System T) (cpu on : ℕ) (before after : List ℕ)
      → Reach x y
      → Consistent dev cpus x
      → y.open_files ≡ before ++ cpu ∷ after
      → elem on cpus ≡ true
      → (s' : Files T) × (release cpus cpu on y.files ≡ some s')
        × Consistent dev cpus (record { files = s'; open_files = before ++ after })
  Reach-release x y cpu on before after r v e up =
      release-Consistent y.files cpu on before after
        (subst (λ o. Consistent dev cpus (record { files = y.files; open_files = o })) e
          (Reach-Consistent r v))
        up
