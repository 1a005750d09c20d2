-- ===== src/Observe/Tracer/Syscalls.antt =====
-- crates/duende-observe/src/tracer.rs: the system call that /proc/{pid}/syscall names.
use duende.Prelude.{
  ℕ, zero, suc, Option, none, some, String, List, [], ◌∷◌, ◌++◌, ◌==◌, if◌then◌else◌,
}
use duende.Prelude.Text.{chars, trim, split_whitespace, same_text}
use duende.Prelude.Decimal.{to_string, parse_digits}
use duende.Core.Types.{ℤ, pos, negsuc}

-- The names of the table, of x86_64.
abbrev table : List (ℕ × String)
table =
    (0, "read")
    ∷ (1, "write")
    ∷ (2, "open")
    ∷ (3, "close")
    ∷ (4, "stat")
    ∷ (5, "fstat")
    ∷ (6, "lstat")
    ∷ (7, "poll")
    ∷ (8, "lseek")
    ∷ (9, "mmap")
    ∷ (10, "mprotect")
    ∷ (11, "munmap")
    ∷ (12, "brk")
    ∷ (13, "rt_sigaction")
    ∷ (14, "rt_sigprocmask")
    ∷ (15, "rt_sigreturn")
    ∷ (16, "ioctl")
    ∷ (17, "pread64")
    ∷ (18, "pwrite64")
    ∷ (19, "readv")
    ∷ (20, "writev")
    ∷ (21, "access")
    ∷ (22, "pipe")
    ∷ (23, "select")
    ∷ (24, "sched_yield")
    ∷ (35, "nanosleep")
    ∷ (56, "clone")
    ∷ (57, "fork")
    ∷ (59, "execve")
    ∷ (60, "exit")
    ∷ (61, "wait4")
    ∷ (62, "kill")
    ∷ (202, "futex")
    ∷ (228, "clock_gettime")
    ∷ (230, "clock_nanosleep")
    ∷ (231, "exit_group")
    ∷ (232, "epoll_wait")
    ∷ (257, "openat")
    ∷ (262, "newfstatat")
    ∷ (270, "pselect6")
    ∷ (281, "epoll_pwait")
    ∷ []

abbrev pub name_in : List (ℕ × String) → ℕ → List ℕ
name_in [] nr = chars "syscall_" ++ to_string nr
name_in ((number, name) ∷ rest) nr = if number == nr then chars name else name_in rest nr

unfoldable pub syscall_name : ℤ → List ℕ
syscall_name (pos nr) = name_in table nr
syscall_name (negsuc zero) = chars "none"
syscall_name (negsuc (suc n)) = chars "syscall_-" ++ to_string (suc (suc n))

abbrev pub negated : Option ℕ → Option ℤ
negated none = none
negated (some zero) = some (pos zero)
negated (some (suc n)) = some (negsuc n)

abbrev pub positive : Option ℕ → Option ℤ
positive none = none
positive (some n) = some (pos n)

abbrev pub digits : ℕ → List ℕ → Option ℕ
unfolding parse_digits
digits limit [] = none
digits limit (c ∷ cs) = parse_digits limit (c ∷ cs) 0

-- `str::parse` to `i64`: one sign (43 is '+', 45 is '-'), then digits.
unfoldable pub parse_i64 : List ℕ → Option ℤ
unfolding digits
parse_i64 [] = none
parse_i64 (c ∷ cs) =
    if c == 45
    then negated (digits 9223372036854775809 cs)
    else if c == 43
    then positive (digits 9223372036854775808 cs)
    else positive (digits 9223372036854775808 (c ∷ cs))

abbrev pub name_of : Option ℤ → Option (List ℕ)
unfolding syscall_name
name_of none = none
name_of (some nr) = some (syscall_name nr)

abbrev pub first_word : List (List ℕ) → Option (List ℕ)
unfolding parse_i64 name_of
first_word [] = none
first_word (w ∷ ws) = name_of (parse_i64 w)

-- The name of the call, from the content of the file; `none` is an error.
unfoldable pub read_current_syscall : Option (List ℕ) → Option (List ℕ)
unfolding first_word split_whitespace
read_current_syscall none = none
read_current_syscall (some content) =
    if same_text (trim content) (chars "running")
    then some (chars "running")
    else first_word (split_whitespace (trim content))
