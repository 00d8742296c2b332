-- ===== src/Shell/Executor/Status.antt =====
-- What the shell has behind a chain: its status and its descriptors.
use barcelona.Base.{
  ℕ, ◌≡◌, refl, ◌∙◌, Bool, true, false, ◌||◌, none, List, [], ◌∷◌, arith, ◌==◌, if◌then◌else◌,
}
use barcelona.Base.Int.{pos, negsuc}
use barcelona.Shell.Descriptors.{Table, assign, close_fd, close_pipes}
use barcelona.Shell.Executor.{Waited, wait_failed, abnormal, exited_with, wait_all, finish_chain}

unfoldable pub all_exited : List Waited → Bool
all_exited [] = true
all_exited (exited_with code ∷ ws) = all_exited ws
all_exited (_ ∷ ws) = false

wait_all-lost : (ws : List Waited) → wait_all (negsuc 0) ws ≡ negsuc 0
unfolding wait_all
wait_all-lost [] = refl
wait_all-lost (wait_failed ∷ ws) = wait_all-lost ws
wait_all-lost (abnormal ∷ ws) = wait_all-lost ws
wait_all-lost (exited_with code ∷ ws) = wait_all-lost ws

wait_all_lem :
    (ws : List Waited) → wait_all (pos 0) ws ≡ (if all_exited ws then pos 0 else negsuc 0)
unfolding wait_all all_exited
wait_all_lem [] = refl
wait_all_lem (wait_failed ∷ ws) = wait_all-lost ws
wait_all_lem (abnormal ∷ ws) = wait_all-lost ws
wait_all_lem (exited_with code ∷ ws) = wait_all_lem ws

-- A descriptor is an end of one of the pipes.
unfoldable pub is_end : ℕ → List (ℕ × ℕ) → Bool
is_end fd [] = false
is_end fd ((r, w) ∷ pipes) = (fd == r || fd == w) || is_end fd pipes

close_pipes_lem :
    (pipes : List (ℕ × ℕ)) (t : Table) (fd : ℕ)
    → close_pipes pipes t fd ≡ (if is_end fd pipes then none else t fd)
unfolding close_pipes is_end
close_pipes_lem [] t fd = refl
close_pipes_lem ((r, w) ∷ pipes) t fd =
    close_pipes_lem pipes (close_fd w (close_fd r t)) fd ∙ closed
  where
    closed :
        (if is_end fd pipes then none else close_fd w (close_fd r t) fd)
        ≡ (if (fd == r || fd == w) || is_end fd pipes then none else t fd)
    closed = unfold close_fd assign in ground arith

twice :
    (pipes : List (ℕ × ℕ)) (t : Table) (fd : ℕ)
    → close_pipes pipes (close_pipes pipes t) fd ≡ (if is_end fd pipes then none else t fd)
twice pipes t fd =
    close_pipes_lem pipes (close_pipes pipes t) fd ∙ again (close_pipes_lem pipes t fd)
  where
    again :
        close_pipes pipes t fd ≡ (if is_end fd pipes then none else t fd)
        → (if is_end fd pipes then none else close_pipes pipes t fd)
          ≡ (if is_end fd pipes then none else t fd)
    again e = ground arith

-- Behind a chain of children the status is 0 if every wait reports an exit, whatever the codes of
-- the exits are, and -1 if one does not; no end of a pipe is open in the shell, and every other
-- descriptor, those of its redirections too, is as it was.
pub finish_chain_lem :
    (pipes : List (ℕ × ℕ)) (t : Table) (waited : List Waited)
    → ((finish_chain pipes t waited).0 ≡ (if all_exited waited then pos 0 else negsuc 0))
      × ((fd : ℕ) → (finish_chain pipes t waited).1 fd ≡ (if is_end fd pipes then none else t fd))
unfolding finish_chain
finish_chain_lem pipes t waited = (wait_all_lem waited, twice pipes t)
