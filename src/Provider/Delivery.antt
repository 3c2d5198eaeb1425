-- ===== src/Provider/Delivery.antt =====
-- What the two goroutines of `Handle` in internal/provider/handler.go leave when both are done.
use http_broker.Base.{
  ℕ, suc, ◌+◌, ◌<◌, ◌≡◌, refl, ap, subst, ◌∙◌, ◌⊎◌, inl, inr, Bool, true, false, some, List, [],
  ◌∷◌, Bytes, Bool-cases, arith, length, take, length-drop,
}
use http_broker.Scrubber.Conn.{Wrote, new_scrub_conn}
use http_broker.Scrubber.Contract.{KeepsContract, IsValid, write_accepts_all}
use http_broker.Tunnel.Bridge.{copy_turns, delivered, copy_turns-delivered}
use http_broker.Provider.Copying.{
  Writer, plain, scrubbing, new_writer, Upload, Copies, Turn, uploads, downloads, writer_write,
  upload_turn, copies_turn, copies, start_copies,
}

-- The sizes of the reads of each goroutine.
unfoldable pub upload_sizes : List Turn → List ℕ
upload_sizes [] = []
upload_sizes (uploads k ∷ ts) = k ∷ upload_sizes ts
upload_sizes (downloads k ∷ ts) = upload_sizes ts

unfoldable pub download_sizes : List Turn → List ℕ
download_sizes [] = []
download_sizes (uploads k ∷ ts) = download_sizes ts
download_sizes (downloads k ∷ ts) = k ∷ download_sizes ts

module _ {S : Type 0} (conn_write : S → Bytes → Wrote S) where
  -- The goroutine to the target alone.
  unfoldable pub upload_turns : List ℕ → Upload S → Upload S
  upload_turns [] u = u
  upload_turns (k ∷ ks) u = upload_turns ks (upload_turn conn_write k u)

  pub upload_turn_finished :
      (k : ℕ) (u : Upload S) → u.finished ≡ true → upload_turn conn_write k u ≡ u
  unfolding upload_turn
  upload_turn_finished k u f = simp f

  pub upload_turns_finished :
      (ks : List ℕ) (u : Upload S) → u.finished ≡ true → upload_turns ks u ≡ u
  unfolding upload_turns
  upload_turns_finished [] u f = refl
  upload_turns_finished (k ∷ ks) u f =
      ap (upload_turns ks) (upload_turn_finished k u f) ∙ upload_turns_finished ks u f

  -- The goroutines do not disturb each other.
  pub copies-splits :
      (ts : List Turn) (c : Copies S)
      → copies conn_write c ts ≡ record {
        up = upload_turns (upload_sizes ts) c.up;
        down = copy_turns (download_sizes ts) c.down;
      }
  unfolding copies copies_turn upload_sizes download_sizes upload_turns copy_turns
  copies-splits [] c = refl
  copies-splits (uploads k ∷ ts) c = copies-splits ts (copies_turn conn_write c (uploads k))
  copies-splits (downloads k ∷ ts) c = copies-splits ts (copies_turn conn_write c (downloads k))

  -- What a writer must be like for its next write to end.
  abbrev IsReady : Writer S → Type 0
  IsReady (plain c) = Unit
  IsReady (scrubbing s) = IsValid s

  new_writer-IsReady : (scrub_headers : Bool) (c : S) → IsReady (new_writer scrub_headers c)
  unfolding new_writer new_scrub_conn
  new_writer-IsReady true c = inl refl
  new_writer-IsReady false c = tt

  abbrev Takes : Writer S → Bytes → Wrote (Writer S) → Type 0
  Takes w p r =
      (writer_write conn_write w p ≡ some r)
      × ((r.failed ≡ true) ⊎ ((r.n ≡ length p) × IsReady r.state))

  module _ (law : KeepsContract conn_write) where
    writer_accepts : (w : Writer S) (p : Bytes) → IsReady w → (r : Wrote (Writer S)) × Takes w p r
    unfolding writer_write
    writer_accepts (plain c) p v = (
      record {
        state = plain (conn_write c p).state;
        n = (conn_write c p).n;
        failed = (conn_write c p).failed;
      },
      (
        refl,
        elim (Bool-cases (conn_write c p).failed) [
          | inl f ↦ inl f
          | inr f ↦ inr (law.all_or_failed c p f, tt)
        ],
      ),
    )
    writer_accepts (scrubbing s) p v =
        let (r, e, how) =
          write_accepts_all conn_write law (suc (length s.buf + length p)) s p v (omega arith) in
        (record { state = scrubbing r.state; n = r.n; failed = r.failed }, (ground (arith, e), how))

    record IsRunning (u : Upload S) : Type 0 where
      ready : (u.finished ≡ true) ⊎ IsReady u.writer
      told_at_end : u.half_closed ≡ u.finished

    -- A turn ends the goroutine, or shortens what is left and leaves a writer that is ready.
    upload_turn_progress :
        (k : ℕ) (u : Upload S)
        → IsRunning u
        → IsRunning (upload_turn conn_write k u)
          × (((upload_turn conn_write k u).finished ≡ true)
              ⊎ (length (upload_turn conn_write k u).source < length u.source))
    unfolding upload_turn
    upload_turn_progress k u v = elim v.ready [
      | inl f ↦ rw (upload_turn_finished k u f) (v, inl f)
      | inr w ↦ go u.source refl w
    ]
      where
        go :
            (src : Bytes)
            → u.source ≡ src
            → IsReady u.writer
            → IsRunning (upload_turn conn_write k u)
              × (((upload_turn conn_write k u).finished ≡ true)
                  ⊎ (length (upload_turn conn_write k u).source < length u.source))
        go [] e w = (
          record {
            ready = inl (ground (arith, e));
            told_at_end = ground (arith, e, v.told_at_end);
          },
          inl (ground (arith, e)),
        )
        go (x ∷ s) e w =
            let (r, (f, how)) = writer_accepts u.writer (take (suc k) u.source) w in
            elim (Bool-cases u.finished) [
              | inl done ↦ rw (upload_turn_finished k u done) (v, inl done)
              | inr on ↦ (
                record {
                  ready = elim how [
                    | inl failed ↦ inl (ground (arith, e, f, on, failed))
                    | inr (all, fine) ↦
                        let same : r.state ≡ (upload_turn conn_write k u).writer =
                          ground (arith, e, f, on) in
                        inr (subst IsReady same fine)
                  ];
                  told_at_end = ground (arith, e, f, on);
                },
                inr (ground (arith, e, f, on, length-drop (suc k) u.source, ap length e)),
              )
            ]

    upload_turns_end :
        (ks : List ℕ) (u : Upload S)
        → IsRunning u
        → length u.source < length ks
        → ((upload_turns ks u).finished ≡ true) × ((upload_turns ks u).half_closed ≡ true)
    unfolding upload_turns
    upload_turns_end [] u v lt = absurd (omega arith)
    upload_turns_end (k ∷ ks) u v lt =
        let (v', how) = upload_turn_progress k u v in
        elim how [
          | inl f ↦
              rw (upload_turns_finished ks (upload_turn conn_write k u) f) (f, v'.told_at_end ∙ f)
          | inr shorter ↦ upload_turns_end ks (upload_turn conn_write k u) v' (omega arith)
        ]

    -- Over any target connection that keeps the contract of io.Writer, failing or not, scrubbed or not,
    -- and in every interleaving in which each goroutine runs more often than its source has bytes: both
    -- goroutines of Handle end, the one to the target has closed its writing half, and the stream has
    -- received all that the target sent and is closed.
    pub copies_end :
        (scrub_headers : Bool) (target : S) (rest reply : Bytes) (ts : List Turn)
        → length rest < length (upload_sizes ts)
        → length reply < length (download_sizes ts)
        → let left =
            copies conn_write (start_copies conn_write scrub_headers target rest reply) ts in
          (left.up.finished ≡ true) × (left.up.half_closed ≡ true) × (left.down ≡ delivered reply)
    unfolding start_copies
    copies_end scrub_headers target rest reply ts lu ld =
        let c = start_copies conn_write scrub_headers target rest reply in
        let (f, h) =
          upload_turns_end (upload_sizes ts) c.up
            (record { ready = inr (new_writer-IsReady scrub_headers target); told_at_end = refl })
            lu in
        rw (copies-splits ts c) (f, h, copy_turns-delivered (download_sizes ts) reply ld)
