-- ===== src/Errno/Bionic.antt =====
-- reimpl/bits/_errno_bionic.h: the error numbers of Android.
use zombie_shooter_ps_vita_p.Prelude.{ℕ}

-- The names that the header defines.
pub data ErrnoBionic : Type 0 where
  eperm_bionic enoent_bionic esrch_bionic eintr_bionic : ErrnoBionic
  eio_bionic enxio_bionic e2big_bionic enoexec_bionic : ErrnoBionic
  ebadf_bionic echild_bionic eagain_bionic enomem_bionic : ErrnoBionic
  eacces_bionic efault_bionic enotblk_bionic ebusy_bionic : ErrnoBionic
  eexist_bionic exdev_bionic enodev_bionic enotdir_bionic : ErrnoBionic
  eisdir_bionic einval_bionic enfile_bionic emfile_bionic : ErrnoBionic
  enotty_bionic etxtbsy_bionic efbig_bionic enospc_bionic : ErrnoBionic
  espipe_bionic erofs_bionic emlink_bionic epipe_bionic : ErrnoBionic
  edom_bionic erange_bionic edeadlk_bionic enametoolong_bionic : ErrnoBionic
  enolck_bionic enosys_bionic enotempty_bionic eloop_bionic : ErrnoBionic
  ewouldblock_bionic enomsg_bionic eidrm_bionic echrng_bionic : ErrnoBionic
  el2nsync_bionic el3hlt_bionic el3rst_bionic elnrng_bionic : ErrnoBionic
  eunatch_bionic enocsi_bionic el2hlt_bionic ebade_bionic : ErrnoBionic
  ebadr_bionic exfull_bionic enoano_bionic ebadrqc_bionic : ErrnoBionic
  ebadslt_bionic edeadlock_bionic ebfont_bionic enostr_bionic : ErrnoBionic
  enodata_bionic etime_bionic enosr_bionic enonet_bionic : ErrnoBionic
  enopkg_bionic eremote_bionic enolink_bionic eadv_bionic : ErrnoBionic
  esrmnt_bionic ecomm_bionic eproto_bionic emultihop_bionic : ErrnoBionic
  edotdot_bionic ebadmsg_bionic eoverflow_bionic enotuniq_bionic : ErrnoBionic
  ebadfd_bionic eremchg_bionic elibacc_bionic elibbad_bionic : ErrnoBionic
  elibscn_bionic elibmax_bionic elibexec_bionic eilseq_bionic : ErrnoBionic
  erestart_bionic estrpipe_bionic eusers_bionic enotsock_bionic : ErrnoBionic
  edestaddrreq_bionic emsgsize_bionic eprototype_bionic enoprotoopt_bionic : ErrnoBionic
  eprotonosupport_bionic esocktnosupport_bionic eopnotsupp_bionic epfnosupport_bionic : ErrnoBionic
  eafnosupport_bionic eaddrinuse_bionic eaddrnotavail_bionic enetdown_bionic : ErrnoBionic
  enetunreach_bionic enetreset_bionic econnaborted_bionic econnreset_bionic : ErrnoBionic
  enobufs_bionic eisconn_bionic enotconn_bionic eshutdown_bionic : ErrnoBionic
  etoomanyrefs_bionic etimedout_bionic econnrefused_bionic ehostdown_bionic : ErrnoBionic
  ehostunreach_bionic ealready_bionic einprogress_bionic estale_bionic : ErrnoBionic
  euclean_bionic enotnam_bionic enavail_bionic eisnam_bionic : ErrnoBionic
  eremoteio_bionic edquot_bionic enomedium_bionic emediumtype_bionic : ErrnoBionic
  ecanceled_bionic enokey_bionic ekeyexpired_bionic ekeyrevoked_bionic : ErrnoBionic
  ekeyrejected_bionic eownerdead_bionic enotrecoverable_bionic erfkill_bionic : ErrnoBionic
  ehwpoison_bionic enotsup_bionic : ErrnoBionic

-- What they stand for.
abbrev pub bionic : ErrnoBionic → ℕ
bionic eperm_bionic = 1
bionic enoent_bionic = 2
bionic esrch_bionic = 3
bionic eintr_bionic = 4
bionic eio_bionic = 5
bionic enxio_bionic = 6
bionic e2big_bionic = 7
bionic enoexec_bionic = 8
bionic ebadf_bionic = 9
bionic echild_bionic = 10
bionic eagain_bionic = 11
bionic enomem_bionic = 12
bionic eacces_bionic = 13
bionic efault_bionic = 14
bionic enotblk_bionic = 15
bionic ebusy_bionic = 16
bionic eexist_bionic = 17
bionic exdev_bionic = 18
bionic enodev_bionic = 19
bionic enotdir_bionic = 20
bionic eisdir_bionic = 21
bionic einval_bionic = 22
bionic enfile_bionic = 23
bionic emfile_bionic = 24
bionic enotty_bionic = 25
bionic etxtbsy_bionic = 26
bionic efbig_bionic = 27
bionic enospc_bionic = 28
bionic espipe_bionic = 29
bionic erofs_bionic = 30
bionic emlink_bionic = 31
bionic epipe_bionic = 32
bionic edom_bionic = 33
bionic erange_bionic = 34
bionic edeadlk_bionic = 35
bionic enametoolong_bionic = 36
bionic enolck_bionic = 37
bionic enosys_bionic = 38
bionic enotempty_bionic = 39
bionic eloop_bionic = 40
bionic ewouldblock_bionic = 11
bionic enomsg_bionic = 42
bionic eidrm_bionic = 43
bionic echrng_bionic = 44
bionic el2nsync_bionic = 45
bionic el3hlt_bionic = 46
bionic el3rst_bionic = 47
bionic elnrng_bionic = 48
bionic eunatch_bionic = 49
bionic enocsi_bionic = 50
bionic el2hlt_bionic = 51
bionic ebade_bionic = 52
bionic ebadr_bionic = 53
bionic exfull_bionic = 54
bionic enoano_bionic = 55
bionic ebadrqc_bionic = 56
bionic ebadslt_bionic = 57
bionic edeadlock_bionic = 35
bionic ebfont_bionic = 59
bionic enostr_bionic = 60
bionic enodata_bionic = 61
bionic etime_bionic = 62
bionic enosr_bionic = 63
bionic enonet_bionic = 64
bionic enopkg_bionic = 65
bionic eremote_bionic = 66
bionic enolink_bionic = 67
bionic eadv_bionic = 68
bionic esrmnt_bionic = 69
bionic ecomm_bionic = 70
bionic eproto_bionic = 71
bionic emultihop_bionic = 72
bionic edotdot_bionic = 73
bionic ebadmsg_bionic = 74
bionic eoverflow_bionic = 75
bionic enotuniq_bionic = 76
bionic ebadfd_bionic = 77
bionic eremchg_bionic = 78
bionic elibacc_bionic = 79
bionic elibbad_bionic = 80
bionic elibscn_bionic = 81
bionic elibmax_bionic = 82
bionic elibexec_bionic = 83
bionic eilseq_bionic = 84
bionic erestart_bionic = 85
bionic estrpipe_bionic = 86
bionic eusers_bionic = 87
bionic enotsock_bionic = 88
bionic edestaddrreq_bionic = 89
bionic emsgsize_bionic = 90
bionic eprototype_bionic = 91
bionic enoprotoopt_bionic = 92
bionic eprotonosupport_bionic = 93
bionic esocktnosupport_bionic = 94
bionic eopnotsupp_bionic = 95
bionic epfnosupport_bionic = 96
bionic eafnosupport_bionic = 97
bionic eaddrinuse_bionic = 98
bionic eaddrnotavail_bionic = 99
bionic enetdown_bionic = 100
bionic enetunreach_bionic = 101
bionic enetreset_bionic = 102
bionic econnaborted_bionic = 103
bionic econnreset_bionic = 104
bionic enobufs_bionic = 105
bionic eisconn_bionic = 106
bionic enotconn_bionic = 107
bionic eshutdown_bionic = 108
bionic etoomanyrefs_bionic = 109
bionic etimedout_bionic = 110
bionic econnrefused_bionic = 111
bionic ehostdown_bionic = 112
bionic ehostunreach_bionic = 113
bionic ealready_bionic = 114
bionic einprogress_bionic = 115
bionic estale_bionic = 116
bionic euclean_bionic = 117
bionic enotnam_bionic = 118
bionic enavail_bionic = 119
bionic eisnam_bionic = 120
bionic eremoteio_bionic = 121
bionic edquot_bionic = 122
bionic enomedium_bionic = 123
bionic emediumtype_bionic = 124
bionic ecanceled_bionic = 125
bionic enokey_bionic = 126
bionic ekeyexpired_bionic = 127
bionic ekeyrevoked_bionic = 128
bionic ekeyrejected_bionic = 129
bionic eownerdead_bionic = 130
bionic enotrecoverable_bionic = 131
bionic erfkill_bionic = 132
bionic ehwpoison_bionic = 133
bionic enotsup_bionic = 95
