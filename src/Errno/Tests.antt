-- ===== src/Errno/Tests.antt =====
-- Errors with the numbers of newlib.
use zombie_shooter_ps_vita_p.Prelude.{
  ℕ, ◌<◌, ◌≤◌, ◌≡◌, ◌≢◌, refl, true, List, [], ◌∷◌, ◌++◌, map, arith, length, get_or,
}
use zombie_shooter_ps_vita_p.Errno.{
  Errno, ErrnoRow, errno_translation, no_row, errno_soloader, read_errno, write_errno, find_newlib,
  set_bionic, strerror_soloader, strerror_r_soloader,
}
use zombie_shooter_ps_vita_p.Errno.Table.{
  eperm, enoent, esrch, eintr, eio, enxio, e2big, enoexec, ebadf, echild, eagain, enomem, eacces,
  efault, enotblk, ebusy, eexist, exdev, enodev, enotdir, eisdir, einval, enfile, emfile, enotty,
  etxtbsy, efbig, enospc, espipe, erofs, emlink, epipe, edom, erange, enomsg, eidrm, edeadlk,
  enolck, enostr, enodata, etime, enosr, eremote, enolink, eproto, emultihop, ebadmsg, enosys,
  enotempty, enametoolong, eloop, eopnotsupp, epfnosupport, econnreset, enobufs, eafnosupport,
  eprototype, enotsock, enoprotoopt, eshutdown, econnrefused, eaddrinuse, econnaborted, enetunreach,
  enetdown, etimedout, ehostdown, ehostunreach, einprogress, ealready, edestaddrreq, emsgsize,
  eprotonosupport, esocktnosupport, eaddrnotavail, enetreset, eisconn, enotconn, etoomanyrefs,
  eusers, edquot, estale, enotsup, eilseq, eoverflow, ecanceled, enotrecoverable, eownerdead,
}
use zombie_shooter_ps_vita_p.Errno.Lookup.{distinct, is_single}
use zombie_shooter_ps_vita_p.Errno.Android.{row_of}
use zombie_shooter_ps_vita_p.Errno.Methods.{
  strerror_soloader-read_errno, read_errno-write_errno, strerror_r_soloader-strerror_soloader,
}

abbrev numbers : Errno → ℕ
numbers eperm = 1
numbers enoent = 2
numbers esrch = 3
numbers eintr = 4
numbers eio = 5
numbers enxio = 6
numbers e2big = 7
numbers enoexec = 8
numbers ebadf = 9
numbers echild = 10
numbers eagain = 11
numbers enomem = 12
numbers eacces = 13
numbers efault = 14
numbers enotblk = 15
numbers ebusy = 16
numbers eexist = 17
numbers exdev = 18
numbers enodev = 19
numbers enotdir = 20
numbers eisdir = 21
numbers einval = 22
numbers enfile = 23
numbers emfile = 24
numbers enotty = 25
numbers etxtbsy = 26
numbers efbig = 27
numbers enospc = 28
numbers espipe = 29
numbers erofs = 30
numbers emlink = 31
numbers epipe = 32
numbers edom = 33
numbers erange = 34
numbers enomsg = 35
numbers eidrm = 36
numbers edeadlk = 45
numbers enolck = 46
numbers enostr = 60
numbers enodata = 61
numbers etime = 62
numbers enosr = 63
numbers eremote = 66
numbers enolink = 67
numbers eproto = 71
numbers emultihop = 74
numbers ebadmsg = 77
numbers enosys = 88
numbers enotempty = 90
numbers enametoolong = 91
numbers eloop = 92
numbers eopnotsupp = 95
numbers epfnosupport = 96
numbers econnreset = 104
numbers enobufs = 105
numbers eafnosupport = 106
numbers eprototype = 107
numbers enotsock = 108
numbers enoprotoopt = 109
numbers eshutdown = 110
numbers econnrefused = 111
numbers eaddrinuse = 112
numbers econnaborted = 113
numbers enetunreach = 114
numbers enetdown = 115
numbers etimedout = 116
numbers ehostdown = 117
numbers ehostunreach = 118
numbers einprogress = 119
numbers ealready = 120
numbers edestaddrreq = 121
numbers emsgsize = 122
numbers eprotonosupport = 123
numbers esocktnosupport = 124
numbers eaddrnotavail = 125
numbers enetreset = 126
numbers eisconn = 127
numbers enotconn = 128
numbers etoomanyrefs = 129
numbers eusers = 131
numbers edquot = 132
numbers estale = 133
numbers enotsup = 134
numbers eilseq = 138
numbers eoverflow = 139
numbers ecanceled = 140
numbers enotrecoverable = 141
numbers eownerdead = 142

abbrev rows : List ErrnoRow
rows = errno_translation numbers

numbers_distinct : distinct (map (λ r. r.errno_newlib) rows) ≡ true
numbers_distinct = refl

strerror_soloader-read_errno_example :
    (read_errno 88 rows ≡ 38)
    × (strerror_soloader 38 rows ≡ (get_or rows (row_of enosys) no_row).strerror)
strerror_soloader-read_errno_example = strerror_soloader-read_errno numbers enosys numbers_distinct

read_errno-write_errno_example :
    (read_errno 2 (write_errno 2 0 rows) ≡ 0)
    × ((f : ℕ)
        → errno_soloader f rows ≢ errno_soloader 2 rows
        → read_errno f (write_errno 2 0 rows) ≡ read_errno f rows)
read_errno-write_errno_example = read_errno-write_errno 2 0 rows (omega arith)

-- The game has set errno to 0 after a missing file.
abbrev written : List ErrnoRow
written = write_errno 2 0 rows

written_single : is_single 13 (map (λ r. r.errno_bionic) written) ≡ true
unfolding write_errno errno_soloader find_newlib set_bionic
written_single = refl

strerror_r_soloader-strerror_soloader_example :
    (length (strerror_soloader 13 written) < 16
      → strerror_r_soloader 13 16 written ≡ (strerror_soloader 13 written ++ 0 ∷ [], 0))
    × (16 ≤ length (strerror_soloader 13 written)
        → ((strerror_r_soloader 13 16 written).1 ≡ 34)
          × (length (strerror_r_soloader 13 16 written).0 ≡ 16))
strerror_r_soloader-strerror_soloader_example =
    strerror_r_soloader-strerror_soloader 13 16 written written_single
