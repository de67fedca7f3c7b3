-- ===== src/Errno/Android.antt =====
-- The numbers of Linux, and so of Android, for the errors of reimpl/errno.c, by their names.
use zombie_shooter_ps_vita_p.Prelude.{ℕ}
use zombie_shooter_ps_vita_p.Errno.Table.{
  Errno, eperm, enoent, esrch, eintr, eio, enxio, e2big, enoexec, ebadf, echild, eagain, enomem,
  eacces, efault, enotblk, ebusy, eexist, exdev, enodev, enotdir, eisdir, einval, enfile, emfile,
  enotty, etxtbsy, efbig, enospc, espipe, erofs, emlink, epipe, edom, erange, enomsg, eidrm,
  edeadlk, enolck, enostr, enodata, etime, enosr, eremote, enolink, eproto, emultihop, ebadmsg,
  enosys, enotempty, enametoolong, eloop, eopnotsupp, epfnosupport, econnreset, enobufs,
  eafnosupport, eprototype, enotsock, enoprotoopt, eshutdown, econnrefused, eaddrinuse,
  econnaborted, enetunreach, enetdown, etimedout, ehostdown, ehostunreach, einprogress, ealready,
  edestaddrreq, emsgsize, eprotonosupport, esocktnosupport, eaddrnotavail, enetreset, eisconn,
  enotconn, etoomanyrefs, eusers, edquot, estale, enotsup, eilseq, eoverflow, ecanceled,
  enotrecoverable, eownerdead,
}

abbrev pub android : Errno → ℕ
android eperm = 1
android enoent = 2
android esrch = 3
android eintr = 4
android eio = 5
android enxio = 6
android e2big = 7
android enoexec = 8
android ebadf = 9
android echild = 10
android eagain = 11
android enomem = 12
android eacces = 13
android efault = 14
android enotblk = 15
android ebusy = 16
android eexist = 17
android exdev = 18
android enodev = 19
android enotdir = 20
android eisdir = 21
android einval = 22
android enfile = 23
android emfile = 24
android enotty = 25
android etxtbsy = 26
android efbig = 27
android enospc = 28
android espipe = 29
android erofs = 30
android emlink = 31
android epipe = 32
android edom = 33
android erange = 34
android enomsg = 42
android eidrm = 43
android edeadlk = 35
android enolck = 37
android enostr = 60
android enodata = 61
android etime = 62
android enosr = 63
android eremote = 66
android enolink = 67
android eproto = 71
android emultihop = 72
android ebadmsg = 74
android enosys = 38
android enotempty = 39
android enametoolong = 36
android eloop = 40
android eopnotsupp = 95
android epfnosupport = 96
android econnreset = 104
android enobufs = 105
android eafnosupport = 97
android eprototype = 91
android enotsock = 88
android enoprotoopt = 92
android eshutdown = 108
android econnrefused = 111
android eaddrinuse = 98
android econnaborted = 103
android enetunreach = 101
android enetdown = 100
android etimedout = 110
android ehostdown = 112
android ehostunreach = 113
android einprogress = 115
android ealready = 114
android edestaddrreq = 89
android emsgsize = 90
android eprotonosupport = 93
android esocktnosupport = 94
android eaddrnotavail = 99
android enetreset = 102
android eisconn = 106
android enotconn = 107
android etoomanyrefs = 109
android eusers = 87
android edquot = 122
android estale = 116
android enotsup = 95
android eilseq = 84
android eoverflow = 75
android ecanceled = 125
android enotrecoverable = 131
android eownerdead = 130

-- The row of an error.
abbrev pub row_of : Errno → ℕ
row_of eperm = 1
row_of enoent = 2
row_of esrch = 3
row_of eintr = 4
row_of eio = 5
row_of enxio = 6
row_of e2big = 7
row_of enoexec = 8
row_of ebadf = 9
row_of echild = 10
row_of eagain = 11
row_of enomem = 12
row_of eacces = 13
row_of efault = 14
row_of enotblk = 15
row_of ebusy = 16
row_of eexist = 17
row_of exdev = 18
row_of enodev = 19
row_of enotdir = 20
row_of eisdir = 21
row_of einval = 22
row_of enfile = 23
row_of emfile = 24
row_of enotty = 25
row_of etxtbsy = 26
row_of efbig = 27
row_of enospc = 28
row_of espipe = 29
row_of erofs = 30
row_of emlink = 31
row_of epipe = 32
row_of edom = 33
row_of erange = 34
row_of enomsg = 35
row_of eidrm = 36
row_of edeadlk = 37
row_of enolck = 38
row_of enostr = 39
row_of enodata = 40
row_of etime = 41
row_of enosr = 42
row_of eremote = 43
row_of enolink = 44
row_of eproto = 45
row_of emultihop = 46
row_of ebadmsg = 47
row_of enosys = 48
row_of enotempty = 49
row_of enametoolong = 50
row_of eloop = 51
row_of eopnotsupp = 52
row_of epfnosupport = 53
row_of econnreset = 54
row_of enobufs = 55
row_of eafnosupport = 56
row_of eprototype = 57
row_of enotsock = 58
row_of enoprotoopt = 59
row_of eshutdown = 60
row_of econnrefused = 61
row_of eaddrinuse = 62
row_of econnaborted = 63
row_of enetunreach = 64
row_of enetdown = 65
row_of etimedout = 66
row_of ehostdown = 67
row_of ehostunreach = 68
row_of einprogress = 69
row_of ealready = 70
row_of edestaddrreq = 71
row_of emsgsize = 72
row_of eprotonosupport = 73
row_of esocktnosupport = 74
row_of eaddrnotavail = 75
row_of enetreset = 76
row_of eisconn = 77
row_of enotconn = 78
row_of etoomanyrefs = 79
row_of eusers = 80
row_of edquot = 81
row_of estale = 82
row_of enotsup = 83
row_of eilseq = 84
row_of eoverflow = 85
row_of ecanceled = 86
row_of enotrecoverable = 87
row_of eownerdead = 88
