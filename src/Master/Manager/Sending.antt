-- ===== src/Master/Manager/Sending.antt =====
-- What `sendTask` does to the machine of the mapper.
use coflow_sim_online.Base.{
  Bool, Option, arith, get_elem?, length, le→ltb, lt→ltb, none, refl, set, some, true, ℕ, ℤ, ◌++◌,
  ◌+◌, ◌<◌, ◌∙◌, ◌≡◌,
}
use coflow_sim_online.Text.{Bytes}
use coflow_sim_online.Common.Socket.{
  emit, Kernel, Socket, set_send_msg, send_msg, max_send_buffer_size,
}
use coflow_sim_online.Common.Epoll.{modfd, epollout}
use coflow_sim_online.Common.Float.{Float}
use coflow_sim_online.Master.Machine.{Machine}
use coflow_sim_online.Master.Manager.{
  MachineManager, Task, find_logic, at_logic, task_text, task_size, send_to, send_task,
}

module _ {D K : Type 0} (float : Float D) (kernel : Kernel K) where
  -- Both logical machines are known: the mapper's is machine `i`, which is `m`, the reducer's is `r`.
  pub record Route (t : Task D) (mm : MachineManager) (i : ℕ) (m r : Machine) : Type 0 where
    pub reducer_at : ℕ
    pub mapper_mapped : find_logic t.mapper_id mm.logic_map ≡ some (some i)
    pub reducer_mapped : find_logic t.reducer_id mm.logic_map ≡ some (some reducer_at)
    pub mapper_machine : get_elem? mm.physics_machines i ≡ some m
    pub reducer_machine : get_elem? mm.physics_machines reducer_at ≡ some r

  abbrev pub text_for : Task D → Machine → Bytes
  text_for t r = task_text float t r.socketip r.socketport

  -- The manager when the mapper's machine has flushed this socket.
  abbrev pub flushed : MachineManager → ℕ → Machine → Socket → K → MachineManager × Bool × K
  flushed mm i m s k = (
    record mm {
      physics_machines =
          set mm.physics_machines i (record m { socket = (send_msg kernel s k).0.0 });
    },
    true,
    (send_msg kernel s k).1,
  )

  at_logic_found :
      (id : ℤ) (mm : MachineManager) {p : Option ℕ}
      → find_logic id mm.logic_map ≡ some p
      → at_logic id mm.logic_map ≡ (p, mm.logic_map)
  unfolding at_logic
  at_logic_found id mm h = rw (h, at_logic)

  send_task_routed :
      (t : Task D) (mm : MachineManager) (i : ℕ) (m r : Machine) (k : K)
      → Route t mm i m r
      → send_task float kernel t mm k ≡ send_to float kernel t i m r mm k
  unfolding send_task
  send_task_routed t mm i m r k route = rw (
    at_logic_found t.mapper_id mm route.mapper_mapped,
    at_logic_found t.reducer_id mm route.reducer_mapped,
    route.mapper_machine,
    route.reducer_machine,
  )

  -- If both logical machines are mapped, a task goes to the mapper's machine, and names the
  -- reducer's: if it fits, its text stands behind what was queued there when the socket is
  -- flushed, and the result is true.
  pub send_task_queues :
      (t : Task D) (mm : MachineManager) (i : ℕ) (m r : Machine) (k : K)
      → Route t mm i m r
      → length (text_for t r) < task_size
      → length m.socket.send_buf + length (text_for t r) < max_send_buffer_size
      → (s : Socket) × (s.send_buf ≡ m.socket.send_buf ++ text_for t r)
        × (send_task float kernel t mm k ≡ some (flushed mm i m s k))
  unfolding send_to set_send_msg
  send_task_queues t mm i m r k route short room = (
    emit (modfd m.socket.epollfd m.socket.sockfd epollout)
        (record m.socket { send_buf = m.socket.send_buf ++ text_for t r }),
    refl,
    send_task_routed t mm i m r k route
        ∙ rw (
          lt→ltb _ _ short,
          le→ltb max_send_buffer_size (length m.socket.send_buf + length (text_for t r))
              (omega arith),
          lt→ltb _ _ room,
        ),
  )

  -- If both logical machines are mapped but the text of the task does not fit behind what is
  -- queued, the task is dropped, and the result is true all the same.
  pub send_task_drops :
      (t : Task D) (mm : MachineManager) (i : ℕ) (m r : Machine) (k : K)
      → Route t mm i m r
      → length (text_for t r) < task_size
      → max_send_buffer_size < length m.socket.send_buf + length (text_for t r)
      → send_task float kernel t mm k ≡ some (flushed mm i m m.socket k)
  unfolding send_to set_send_msg
  send_task_drops t mm i m r k route short full =
      send_task_routed t mm i m r k route ∙ rw (lt→ltb _ _ short, lt→ltb _ _ full)

  -- A logical machine that is not in the map is a null pointer, which `sendTask` follows.
  pub send_task_unmapped :
      (t : Task D) (mm : MachineManager) (k : K)
      → find_logic t.mapper_id mm.logic_map ≡ none
      → send_task float kernel t mm k ≡ none
  unfolding send_task at_logic
  send_task_unmapped t mm k h = rw (h, at_logic)
