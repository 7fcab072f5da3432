-- ===== src/Process/Files/Close.antt =====
-- closeProcessFd, and the descriptor that it leaves open.
use blueberry_os.Base.{
  ℕ, zero, suc, ◌-◌, ◌≤◌, ◌<◌, ◌≡◌, refl, arith, true, false, not, none, some, List, [], ◌∷◌, ◌∙◌,
  length, get_elem?, set, get_elem?-set_ne, get_elem?-set_self, ◌≢◌, sym,
}
use blueberry_os.Base.Int.{pos}
use blueberry_os.Process.Files.{
  Pfd, max_file_descriptors, get_process_pfd, closed, outside, deactivate, close_process_fd,
}

get_process_pfd-index : (fd : ℕ) → 3 ≤ fd → fd < 67 → get_process_pfd fd ≡ some (fd - 3)
unfolding get_process_pfd
get_process_pfd-index fd lo hi = ground arith

get_elem?-length :
    (pfds : List Pfd) (i : ℕ) → i < length pfds → (pfd : Pfd) × (get_elem? pfds i ≡ some pfd)
get_elem?-length [] i h = absurd (omega arith)
get_elem?-length (pfd ∷ pfds) zero h = (pfd, refl)
get_elem?-length (pfd ∷ pfds) (suc i) h = get_elem?-length pfds i (omega arith)

get_elem?-end : (pfds : List Pfd) (i : ℕ) → length pfds ≤ i → get_elem? pfds i ≡ none
get_elem?-end [] i h = refl
get_elem?-end (pfd ∷ pfds) zero h = absurd (omega arith)
get_elem?-end (pfd ∷ pfds) (suc i) h = get_elem?-end pfds i (omega arith)

-- closeProcessFd of an open descriptor from 3 to 63 returns 0 and leaves that descriptor as it was,
-- open: it is the element three places behind that is marked as not active, its other fields kept, and
-- every other element is as before.
pub close_process_fd-leaves_open :
    (pfds : List Pfd) (fd : ℕ) (pfd : Pfd)
    → length pfds ≡ max_file_descriptors
    → 3 ≤ fd
    → fd < max_file_descriptors
    → get_elem? pfds (fd - 3) ≡ some pfd
    → pfd.active ≡ true
    → (pfds' : List Pfd) × (close_process_fd pfds fd ≡ closed (pos 0) pfds')
      × (get_elem? pfds' (fd - 3) ≡ some pfd)
      × ((other : Pfd) × (get_elem? pfds fd ≡ some other)
          × (get_elem? pfds' fd ≡ some (record other { active = false })))
      × ((j : ℕ) → j ≢ fd → get_elem? pfds' j ≡ get_elem? pfds j)
unfolding close_process_fd deactivate
close_process_fd-leaves_open pfds fd pfd full lo hi held on =
    let (other, e) = get_elem?-length pfds fd (omega arith) in
    let index = get_process_pfd-index fd lo (omega arith) in
    let active_on : not pfd.active ≡ false = rw on refl in
    (
      set pfds fd (record other { active = false }),
      rw (index, close_process_fd, held, active_on, e, deactivate) refl,
      get_elem?-set_ne pfds fd (fd - 3) (record other { active = false }) (λ same. omega arith)
          ∙ held,
      (other, e, get_elem?-set_self pfds fd (record other { active = false }) (omega arith)),
      λ j ne. get_elem?-set_ne pfds fd j (record other { active = false }) (λ same. ne (sym same)),
    )

-- closeProcessFd of an open descriptor from 64 on writes behind the array.
pub close_process_fd-outside :
    (pfds : List Pfd) (fd : ℕ) (pfd : Pfd)
    → length pfds ≡ max_file_descriptors
    → max_file_descriptors ≤ fd
    → fd < 67
    → get_elem? pfds (fd - 3) ≡ some pfd
    → pfd.active ≡ true
    → close_process_fd pfds fd ≡ outside fd
unfolding close_process_fd deactivate
close_process_fd-outside pfds fd pfd full lo hi held on =
    let active_on : not pfd.active ≡ false = rw on refl in
    let past = get_elem?-end pfds fd (omega arith) in
    rw
      (
        get_process_pfd-index fd (omega arith) hi,
        close_process_fd,
        held,
        active_on,
        deactivate,
        past,
      )
      refl
