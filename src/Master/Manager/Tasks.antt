-- ===== src/Master/Manager/Tasks.antt =====
-- The text of a task, and what becomes of it.
use coflow_sim_online.Text.RoundTrip.{
  IsWord, print_int-IsWord, IsDark, print_int-IsDark, read_word-append,
}
use coflow_sim_online.Wire.{frame}
use coflow_sim_online.Base.{
  All, All-append, [], append-nil, append_assoc, false, refl, subst, ℤ, ◌++◌, ◌∷◌, ◌≡◌,
}
use coflow_sim_online.Text.{Bytes}
use coflow_sim_online.Common.Float.{Float, FloatLaws, IsMark}
use coflow_sim_online.Master.Manager.{
  transfer, print_int, read_word, Float, stream, task_text, Task, file_name,
}

transfer_word : (w ch : Bytes) → IsWord w → transfer w (ch, []) ≡ (ch ++ w, [])
unfolding transfer
transfer_word w ch (ne, dark) =
    let whole =
      subst (λ x. read_word [] (stream x) ≡ (w, record { unread = []; good = false }))
        (append-nil w) (read_word-append [] w [] ne dark tt) in
    rw whole

IsWord-append : (a b : Bytes) → IsWord a → All IsDark b → IsWord (a ++ b)
IsWord-append [] b (ne, h) d = absurd (ne refl)
IsWord-append (c ∷ a) b (ne, h) d = (λ e. cc, All-append IsDark (c ∷ a) b h d)

module _ {D : Type 0} (float : Float D) (laws : FloatLaws float) where
  print-IsDark : (ds : Bytes) → All IsMark ds → All IsDark ds
  print-IsDark [] h = tt
  print-IsDark (d ∷ ds) (hd, h) = (hd.0, print-IsDark ds h)

  pub print-IsWord : (d : D) → IsWord (float.print d)
  print-IsWord d = (laws.print_ne_nil d, print-IsDark (float.print d) (laws.print_marks d))

  pub file_name-IsWord : (t : Task D) → IsWord (file_name float t)
  file_name-IsWord t = IsWord-append (print_int t.coflow_id) _ (print_int-IsWord t.coflow_id) (
    refl,
    All-append IsDark (print_int t.flow_id) _ (print_int-IsDark t.flow_id) (
      refl,
      All-append IsDark (float.print t.flow_size_mb) _ (print-IsWord t.flow_size_mb).1 (
        refl,
        All-append IsDark (float.print t.send_speed_mbs) _ (print-IsWord t.send_speed_mbs).1
            (refl, (refl, (refl, (refl, tt)))),
      ),
    ),
  )

  -- The body of the message: seven words with a space between each two.
  unfoldable pub task_body : Task D → Bytes → ℤ → Bytes
  task_body t ip port =
      print_int t.coflow_id
      ++ (b' '
          ∷ (print_int t.flow_id
              ++ (b' '
                  ∷ (ip
                      ++ (b' '
                          ∷ (print_int port
                              ++ (b' '
                                  ∷ (file_name float t
                                      ++ (b' '
                                          ∷ (float.print t.flow_size_mb
                                              ++ (b' ' ∷ float.print t.send_speed_mbs)))))))))))

  -- Transferring the pieces of a task through the string stream writes one message of the wire
  -- format: seven words with a space between each two, in parentheses, if the address is a word.
  pub task_text-frame :
      (t : Task D) (ip : Bytes) (port : ℤ)
      → IsWord ip
      → task_text float t ip port ≡ frame (task_body t ip port)
  unfolding task_text task_body
  task_text-frame t ip port word =
      rw
        (
          transfer_word _ _ (print_int-IsWord t.coflow_id),
          transfer_word _ _ (print_int-IsWord t.flow_id),
          transfer_word _ _ word,
          transfer_word _ _ (print_int-IsWord port),
          transfer_word _ _ (file_name-IsWord t),
          transfer_word _ _ (print-IsWord t.flow_size_mb),
          transfer_word _ _ (print-IsWord t.send_speed_mbs),
        )
        (simp append_assoc)
