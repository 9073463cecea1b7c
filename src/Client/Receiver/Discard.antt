-- ===== src/Client/Receiver/Discard.antt =====
-- A receiver reads its connection to the end, and closes it then.
use coflow_sim_online.Text.{Bytes}
use coflow_sim_online.Base.{
  List-cases, [], ap, arith, drop, inl, inr, length, length-append, length-take-le, pos, refl, some,
  suc, take, take-drop, true, zero, ℕ, ℤ, ◌++◌, ◌<◌, ◌∷◌, ◌≡◌, ◌≤◌,
}
use coflow_sim_online.Common.Socket.{Kernel, received, send_failed}
use coflow_sim_online.Client.Receiver.{
  RecvManager, rece_file_buffer_size, read_file, run_file, close_fd, forget, close_conn,
}

-- A blocking connection on which no error comes: `rest` is what is still to be read before its end.
pub record Line {K : Type 0} (kernel : Kernel K) : Type 0 where
  pub rest : K → Bytes
  pub recv_law :
      (fd : ℤ) (room : ℕ) (k : K)
      → 0 < room
      → (bs : Bytes) × ((kernel.recv fd room k).0 ≡ received bs)
        × (rest k ≡ bs ++ rest (kernel.recv fd room k).1)
        × (length bs ≤ room)
        × (length bs ≡ 0 → rest k ≡ [])

module _ {K : Type 0} (kernel : Kernel K) (line : Line kernel) where
  read_file_total :
      (fuel : ℕ) (fd : ℤ) (k : K)
      → length (line.rest k) < fuel
      → (k' : K) × (read_file kernel fuel fd k ≡ some (true, k')) × (line.rest k' ≡ [])
  unfolding read_file
  read_file_total zero fd k lt = absurd (omega arith)
  read_file_total (suc fuel) fd k lt =
      let (bs, e, split, fits, last) = line.recv_law fd rece_file_buffer_size k (omega arith) in
      elim (List-cases bs) [
        | inl none_left ↦ (
          (kernel.recv fd rece_file_buffer_size k).1,
          ground (arith, e, none_left),
          ground (arith, none_left, split, last (ground (arith, none_left))),
        )
        | inr (b, more, grows) ↦
            let (k', e', done) =
              read_file_total fuel fd (kernel.recv fd rece_file_buffer_size k).1 (
                omega (
                  arith,
                  ap length split,
                  lt,
                  ap length grows,
                  length-append bs (line.rest (kernel.recv fd rece_file_buffer_size k).1),
                )) in
            (k', ground (arith, e, grows, e'), done)
      ]

  -- A receiver whose connection brings some bytes and then its end reads all of them, whatever
  -- sizes the reads have, closes the connection, and forgets its descriptor; one round more than
  -- there are bytes is enough.
  pub run_file-closes :
      (i n : ℕ) (m : RecvManager) (k : K)
      → m.rece_files i ≡ some (pos n)
      → (k' : K) × (run_file kernel (suc (length (line.rest k))) i m k
          ≡ some (forget i (close_fd (pos n) m), k'))
        × (line.rest k' ≡ [])
  unfolding run_file close_conn
  run_file-closes i n m k own =
      let (k', e, done) = read_file_total (suc (length (line.rest k))) (pos n) k (omega arith) in
      (k', ground (arith, own, e), done)

-- A connection that brings these bytes and ends.
abbrev pub tail : Kernel Bytes
tail = record {
  send = λ fd buf k. (send_failed, k);
  recv = λ fd room k. (received (take room k), drop room k);
}

pub take_nil : (n : ℕ) (k : Bytes) → 0 < n → length (take n k) ≡ 0 → k ≡ []
take_nil zero k lt h = absurd (omega arith)
take_nil (suc n) [] lt h = refl
take_nil (suc n) (b ∷ k) lt h = absurd (omega (arith, h))

abbrev pub tail_line : Line tail
tail_line = record {
  rest = λ k. k;
  recv_law = λ fd room k lt.
      (take room k, refl, take-drop room k, length-take-le room k, take_nil room k lt);
}
