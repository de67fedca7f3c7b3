-- ===== src/Errno/Table.antt =====
-- reimpl/errno.c: the names of newlib's error numbers, and the table of translations.
use Prim.Native.String.{String}
use zombie_shooter_ps_vita_p.Prelude.{ℕ, List, [], ◌∷◌, codes}
use zombie_shooter_ps_vita_p.Errno.Bionic.{
  ErrnoBionic, bionic, eperm_bionic, enoent_bionic, esrch_bionic, eintr_bionic, eio_bionic,
  enxio_bionic, e2big_bionic, enoexec_bionic, ebadf_bionic, echild_bionic, eagain_bionic,
  enomem_bionic, eacces_bionic, efault_bionic, enotblk_bionic, ebusy_bionic, eexist_bionic,
  exdev_bionic, enodev_bionic, enotdir_bionic, eisdir_bionic, einval_bionic, enfile_bionic,
  emfile_bionic, enotty_bionic, etxtbsy_bionic, efbig_bionic, enospc_bionic, espipe_bionic,
  erofs_bionic, emlink_bionic, epipe_bionic, edom_bionic, erange_bionic, edeadlk_bionic,
  enametoolong_bionic, enolck_bionic, enosys_bionic, enotempty_bionic, eloop_bionic, enomsg_bionic,
  eidrm_bionic, enostr_bionic, enodata_bionic, etime_bionic, enosr_bionic, eremote_bionic,
  enolink_bionic, eproto_bionic, emultihop_bionic, ebadmsg_bionic, eoverflow_bionic, eilseq_bionic,
  eusers_bionic, enotsock_bionic, edestaddrreq_bionic, emsgsize_bionic, eprototype_bionic,
  enoprotoopt_bionic, eprotonosupport_bionic, esocktnosupport_bionic, eopnotsupp_bionic,
  epfnosupport_bionic, eafnosupport_bionic, eaddrinuse_bionic, eaddrnotavail_bionic,
  enetdown_bionic, enetunreach_bionic, enetreset_bionic, econnaborted_bionic, econnreset_bionic,
  enobufs_bionic, eisconn_bionic, enotconn_bionic, eshutdown_bionic, etoomanyrefs_bionic,
  etimedout_bionic, econnrefused_bionic, ehostdown_bionic, ehostunreach_bionic, ealready_bionic,
  einprogress_bionic, estale_bionic, edquot_bionic, ecanceled_bionic, eownerdead_bionic,
  enotrecoverable_bionic, enotsup_bionic,
}

-- The names of newlib's sys/errno.h that the table uses. Their numbers are a parameter.
pub data Errno : Type 0 where
  eperm enoent esrch eintr : Errno
  eio enxio e2big enoexec : Errno
  ebadf echild eagain enomem : Errno
  eacces efault enotblk ebusy : Errno
  eexist exdev enodev enotdir : Errno
  eisdir einval enfile emfile : Errno
  enotty etxtbsy efbig enospc : Errno
  espipe erofs emlink epipe : Errno
  edom erange enomsg eidrm : Errno
  edeadlk enolck enostr enodata : Errno
  etime enosr eremote enolink : Errno
  eproto emultihop ebadmsg enosys : Errno
  enotempty enametoolong eloop eopnotsupp : Errno
  epfnosupport econnreset enobufs eafnosupport : Errno
  eprototype enotsock enoprotoopt eshutdown : Errno
  econnrefused eaddrinuse econnaborted enetunreach : Errno
  enetdown etimedout ehostdown ehostunreach : Errno
  einprogress ealready edestaddrreq emsgsize : Errno
  eprotonosupport esocktnosupport eaddrnotavail enetreset : Errno
  eisconn enotconn etoomanyrefs eusers : Errno
  edquot estale enotsup eilseq : Errno
  eoverflow ecanceled enotrecoverable eownerdead : Errno

pub record ErrnoRow : Type 0 where
  pub errno_newlib : ℕ
  pub errno_bionic : ℕ
  pub strerror : List ℕ

abbrev row : ℕ → ErrnoBionic → String → ErrnoRow
row n b s = record { errno_newlib = n; errno_bionic = bionic b; strerror = codes s }

abbrev pub errno_translation : (Errno → ℕ) → List ErrnoRow
errno_translation newlib =
    record { errno_newlib = 0; errno_bionic = 0; strerror = codes "Success" }
    ∷ row (newlib eperm) eperm_bionic "Operation not permitted"
    ∷ row (newlib enoent) enoent_bionic "No such file or directory"
    ∷ row (newlib esrch) esrch_bionic "No such process"
    ∷ row (newlib eintr) eintr_bionic "Interrupted system call"
    ∷ row (newlib eio) eio_bionic "I/O error"
    ∷ row (newlib enxio) enxio_bionic "No such device or address"
    ∷ row (newlib e2big) e2big_bionic "Argument list too long"
    ∷ row (newlib enoexec) enoexec_bionic "Exec format error"
    ∷ row (newlib ebadf) ebadf_bionic "Bad file descriptor"
    ∷ row (newlib echild) echild_bionic "No child processes"
    ∷ row (newlib eagain) eagain_bionic "Try again"
    ∷ row (newlib enomem) enomem_bionic "Out of memory"
    ∷ row (newlib eacces) eacces_bionic "Permission denied"
    ∷ row (newlib efault) efault_bionic "Bad address"
    ∷ row (newlib enotblk) enotblk_bionic "Block device required"
    ∷ row (newlib ebusy) ebusy_bionic "Device or resource busy"
    ∷ row (newlib eexist) eexist_bionic "File exists"
    ∷ row (newlib exdev) exdev_bionic "Cross-device link"
    ∷ row (newlib enodev) enodev_bionic "No such device"
    ∷ row (newlib enotdir) enotdir_bionic "Not a directory"
    ∷ row (newlib eisdir) eisdir_bionic "Is a directory"
    ∷ row (newlib einval) einval_bionic "Invalid argument"
    ∷ row (newlib enfile) enfile_bionic "File table overflow"
    ∷ row (newlib emfile) emfile_bionic "Too many open files"
    ∷ row (newlib enotty) enotty_bionic "Inappropriate ioctl for device"
    ∷ row (newlib etxtbsy) etxtbsy_bionic "Text file busy"
    ∷ row (newlib efbig) efbig_bionic "File too large"
    ∷ row (newlib enospc) enospc_bionic "No space left on device"
    ∷ row (newlib espipe) espipe_bionic "Illegal seek"
    ∷ row (newlib erofs) erofs_bionic "Read-only file system"
    ∷ row (newlib emlink) emlink_bionic "Too many links"
    ∷ row (newlib epipe) epipe_bionic "Broken pipe"
    ∷ row (newlib edom) edom_bionic "Math argument out of domain of func"
    ∷ row (newlib erange) erange_bionic "Math result not representable"
    ∷ row (newlib enomsg) enomsg_bionic "No message of desired type"
    ∷ row (newlib eidrm) eidrm_bionic "Identifier removed"
    ∷ row (newlib edeadlk) edeadlk_bionic "Resource deadlock would occur"
    ∷ row (newlib enolck) enolck_bionic "No record locks available"
    ∷ row (newlib enostr) enostr_bionic "Device not a stream"
    ∷ row (newlib enodata) enodata_bionic "No data available"
    ∷ row (newlib etime) etime_bionic "Timer expired"
    ∷ row (newlib enosr) enosr_bionic "Out of streams resources"
    ∷ row (newlib eremote) eremote_bionic "Object is remote"
    ∷ row (newlib enolink) enolink_bionic "Link has been severed"
    ∷ row (newlib eproto) eproto_bionic "Protocol error"
    ∷ row (newlib emultihop) emultihop_bionic "Multihop attempted"
    ∷ row (newlib ebadmsg) ebadmsg_bionic "Not a data message"
    ∷ row (newlib enosys) enosys_bionic "Function not implemented"
    ∷ row (newlib enotempty) enotempty_bionic "Directory not empty"
    ∷ row (newlib enametoolong) enametoolong_bionic "File name too long"
    ∷ row (newlib eloop) eloop_bionic "Too many symbolic links encountered"
    ∷ row (newlib eopnotsupp) eopnotsupp_bionic "Operation not supported on transport endpoint"
    ∷ row (newlib epfnosupport) epfnosupport_bionic "Protocol family not supported"
    ∷ row (newlib econnreset) econnreset_bionic "Connection reset by peer"
    ∷ row (newlib enobufs) enobufs_bionic "No buffer space available"
    ∷ row (newlib eafnosupport) eafnosupport_bionic "Address family not supported by protocol"
    ∷ row (newlib eprototype) eprototype_bionic "Protocol wrong type for socket"
    ∷ row (newlib enotsock) enotsock_bionic "Socket operation on non-socket"
    ∷ row (newlib enoprotoopt) enoprotoopt_bionic "Protocol not available"
    ∷ row (newlib eshutdown) eshutdown_bionic "Cannot send after transport endpoint shutdown"
    ∷ row (newlib econnrefused) econnrefused_bionic "Connection refused"
    ∷ row (newlib eaddrinuse) eaddrinuse_bionic "Address already in use"
    ∷ row (newlib econnaborted) econnaborted_bionic "Software caused connection abort"
    ∷ row (newlib enetunreach) enetunreach_bionic "Network is unreachable"
    ∷ row (newlib enetdown) enetdown_bionic "Network is down"
    ∷ row (newlib etimedout) etimedout_bionic "Connection timed out"
    ∷ row (newlib ehostdown) ehostdown_bionic "Host is down"
    ∷ row (newlib ehostunreach) ehostunreach_bionic "No route to host"
    ∷ row (newlib einprogress) einprogress_bionic "Operation now in progress"
    ∷ row (newlib ealready) ealready_bionic "Operation already in progress"
    ∷ row (newlib edestaddrreq) edestaddrreq_bionic "Destination address required"
    ∷ row (newlib emsgsize) emsgsize_bionic "Message too long"
    ∷ row (newlib eprotonosupport) eprotonosupport_bionic "Protocol not supported"
    ∷ row (newlib esocktnosupport) esocktnosupport_bionic "Socket type not supported"
    ∷ row (newlib eaddrnotavail) eaddrnotavail_bionic "Cannot assign requested address"
    ∷ row (newlib enetreset) enetreset_bionic "Network dropped connection because of reset"
    ∷ row (newlib eisconn) eisconn_bionic "Transport endpoint is already connected"
    ∷ row (newlib enotconn) enotconn_bionic "Transport endpoint is not connected"
    ∷ row (newlib etoomanyrefs) etoomanyrefs_bionic "Too many references: cannot splice"
    ∷ row (newlib eusers) eusers_bionic "Too many users"
    ∷ row (newlib edquot) edquot_bionic "Quota exceeded"
    ∷ row (newlib estale) estale_bionic "Stale NFS file handle"
    ∷ row (newlib enotsup) enotsup_bionic "Operation not supported"
    ∷ row (newlib eilseq) eilseq_bionic "Illegal byte sequence"
    ∷ row (newlib eoverflow) eoverflow_bionic "Value too large for defined data type"
    ∷ row (newlib ecanceled) ecanceled_bionic "Operation Canceled"
    ∷ row (newlib enotrecoverable) enotrecoverable_bionic "State not recoverable"
    ∷ row (newlib eownerdead) eownerdead_bionic "Owner died"
    ∷ []
