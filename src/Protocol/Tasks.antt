-- ===== src/Protocol/Tasks.antt =====
-- From MachineManager::sendTask to SendManager::appendTask.
use coflow_sim_online.Text.RoundTrip.{
  IsWord, EndsWord, read_int-print_int, read_word-append, read_word-space,
}
use coflow_sim_online.Base.{IsInt, [], append-nil, false, refl, subst, ℤ, ◌++◌, ◌∙◌, ◌∷◌, ◌≡◌}
use coflow_sim_online.Text.{Bytes}
use coflow_sim_online.Text.Stream.{stream, read_word, more}
use coflow_sim_online.Common.Float.{Float, FloatLaws}
use coflow_sim_online.Client.Senders.{SendTask, send_wait, read_task}
use coflow_sim_online.Master.Manager.{Task, file_name}
use coflow_sim_online.Master.Manager.Tasks.{task_body, file_name-IsWord}
use coflow_sim_online.Protocol.Reports.{read_spaced}

module _ {D : Type 0} (float : Float D) (laws : FloatLaws float) where
  -- The task that the client gets, in the memory `raw`. The numbers have passed through six digits.
  abbrev pub received_task : SendTask D → Task D → Bytes → ℤ → SendTask D
  received_task raw t ip port = record {
    destination_ip = ip;
    destination_port = port;
    flow_size_mb = laws.shown t.flow_size_mb;
    speed_mbs = laws.shown t.send_speed_mbs;
    file_name = file_name float t;
    coflow_id = t.coflow_id;
    flow_id = t.flow_id;
    send_state = send_wait;
    end_time = raw.end_time;
  }

  read_spaced_word :
      (old w rest : Bytes)
      → IsWord w
      → EndsWord rest
      → read_word old (stream (b' ' ∷ (w ++ rest)))
        ≡ (w, record { unread = rest; good = more rest })
  read_spaced_word old w rest (ne, dark) e =
      read_word-space old (w ++ rest) ∙ read_word-append old w rest ne dark e

  read_spaced_float :
      (old d : D) (rest : Bytes)
      → EndsWord rest
      → float.read old (stream (b' ' ∷ (float.print d ++ rest)))
        ≡ (laws.shown d, record { unread = rest; good = more rest })
  read_spaced_float old d rest e =
      laws.read_space old (float.print d ++ rest) ∙ laws.read_print old d rest e

  read_last_float :
      (old d : D)
      → float.read old (stream (b' ' ∷ float.print d))
        ≡ (laws.shown d, record { unread = []; good = false })
  read_last_float old d =
      subst
        (λ x.
          float.read old (stream (b' ' ∷ x)) ≡ (laws.shown d, record { unread = []; good = false }))
        (append-nil (float.print d)) (read_spaced_float old d [] tt)

  -- The client reads the seven fields that the master wrote.
  pub read_task-task_body :
      (raw : SendTask D) (t : Task D) (ip : Bytes) (port : ℤ)
      → IsInt t.coflow_id
      → IsInt t.flow_id
      → IsInt port
      → IsWord ip
      → read_task float raw (task_body float laws t ip port) ≡ received_task raw t ip port
  unfolding read_task task_body
  read_task-task_body raw t ip port hc hf hp word =
      rw
        (
          read_int-print_int raw.coflow_id t.coflow_id _ hc refl,
          read_spaced raw.flow_id t.flow_id _ hf refl,
          read_spaced_word raw.destination_ip ip _ word refl,
          read_spaced raw.destination_port port _ hp refl,
          read_spaced_word raw.file_name (file_name float t) _ (file_name-IsWord float laws t) refl,
          read_spaced_float raw.flow_size_mb t.flow_size_mb _ refl,
          read_last_float raw.speed_mbs t.send_speed_mbs,
        )
        refl
