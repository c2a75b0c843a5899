-- ===== src/Tests/Basics.antt =====
-- The lock, the memory functions, the console and the macros of olive/include and olive/src/lib.
use fwp_athix.Prelude.{ℕ, ◌≡◌, ◌⊎◌, refl, List, [], ◌∷◌, ℤ, pos, length-replicate, replicate}
use fwp_athix.Outcome.{returned, hang}
use fwp_athix.Lock.{test_and_set, spinlock_release}
use fwp_athix.Lock.Mutex.{
  Place, Cpus, Step, call, enter, move, start, Reach, begin, later, mutual_exclusion, no_deadlock,
}
use fwp_athix.Console.{puts, printf, fprintf}
use fwp_athix.Log.{Line, text, default_build, warn_level, log_at}
use fwp_athix.Log.Lines.{log_at_lem}
use fwp_athix.Console.Output.{ready, after, IsFormatter, printf-text, puts-hang}

-- CPU 0 waits for the lock, then has it.
abbrev waiting : Cpus
waiting = record start { place = move start.place 0 Place.waiting }

abbrev inside : Cpus
inside = record { lock = (test_and_set waiting.lock).1; place = move waiting.place 0 Place.inside }

waiting-Reach : Reach waiting
waiting-Reach = later begin (call 0 refl)

inside-Reach : Reach inside
unfolding test_and_set
inside-Reach = later waiting-Reach (enter 0 refl refl)

mutual_exclusion_example : ◌≡◌ {A = ℕ} 0 0
mutual_exclusion_example = mutual_exclusion {s = inside} 0 0 inside-Reach refl refl

no_deadlock_example :
    Step waiting
      (record { lock = (test_and_set waiting.lock).1; place = move waiting.place 0 Place.inside })
    ⊎ ((j : ℕ) × (waiting.place j ≡ Place.inside)
        × Step waiting (record {
          lock = spinlock_release waiting.lock;
          place = move waiting.place j Place.outside;
        }))
no_deadlock_example = no_deadlock {s = waiting} 0 waiting-Reach refl

puts-hang_example : puts (65 ∷ []) (ready [] []) ≡ hang
puts-hang_example = puts-hang (65 ∷ []) (ready [] [])

-- A formatter that prints a `*` for each line
abbrev star : ℕ → Line ℕ → ℤ × List ℕ
star size line = (pos 1, replicate 1024 42)

star-IsFormatter : IsFormatter star
star-IsFormatter f = length-replicate {A = ℕ} 1024 42

log_at_lem_example :
    log_at star default_build "src/mm/pmm.c" warn_level (text 7) (ready [] [])
    ≡ returned (after (42 ∷ 42 ∷ []) [] [])
log_at_lem_example =
    log_at_lem star default_build "src/mm/pmm.c" star-IsFormatter warn_level (text 7) [] []

-- A line of three characters, and one that is too long
abbrev sized : ℕ → ℕ → ℤ × List ℕ
sized size n = (pos n, replicate 1024 42)

printf-text_example :
    (printf sized 3 (ready [] []) ≡ returned (pos 3, after (42 ∷ 42 ∷ 42 ∷ []) [] []))
    × (fprintf sized 3 (ready [] []) ≡ returned (pos 3, after (42 ∷ 42 ∷ 42 ∷ []) [] []))
printf-text_example = printf-text sized 3 [] [] (λ n. length-replicate {A = ℕ} 1024 42)
