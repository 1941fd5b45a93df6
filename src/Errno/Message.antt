-- ===== src/Errno/Message.antt =====
-- lib/libc/string/strerror.c: the table of messages, and `strerror`.
use Prim.Native.String.{String}
use trunix.Prelude.{ℕ, Option, none, some, List, [], ◌∷◌, ◌==◌, if◌then◌else◌}
use trunix.Errno.{Errno, number}

-- The initializers of the array in their order, each at its index. The first has the index 0.
unfoldable pub errmsg : List (ℕ × String)
unfolding number
errmsg =
    (0, "0")
    ∷ (number Errno.e2big, "Argument list too long.")
    ∷ (number Errno.eacces, "Permission denied.")
    ∷ (number Errno.eaddrinuse, "Address in use.")
    ∷ (number Errno.eaddrnotavail, "Address not available.")
    ∷ (number Errno.eafnosupport, "Address family not supported.")
    ∷ (number Errno.eagain, "Resource unavailable, try again.")
    ∷ (number Errno.ealready, "Connection already in progress.")
    ∷ (number Errno.ebadf, "Bad file descriptor.")
    ∷ (number Errno.ebadmsg, "Bad message.")
    ∷ (number Errno.ebusy, "Device or resource busy.")
    ∷ (number Errno.ecanceled, "Operation canceled.")
    ∷ (number Errno.echild, "No child processes.")
    ∷ (number Errno.econnaborted, "Connection aborted.")
    ∷ (number Errno.econnrefused, "Connection refused.")
    ∷ (number Errno.econnreset, "Connection reset.")
    ∷ (number Errno.edeadlk, "Resource deadlock would occur.")
    ∷ (number Errno.edestaddrreq, "Destination address required.")
    ∷ (number Errno.edom, "Mathematics argument out of domain of function.")
    ∷ (number Errno.edquot, "Reserved.")
    ∷ (number Errno.eexist, "File exists.")
    ∷ (number Errno.efault, "Bad address.")
    ∷ (number Errno.efbig, "File too large.")
    ∷ (number Errno.ehostunreach, "Host is unreachable.")
    ∷ (number Errno.eidrm, "Identifier removed.")
    ∷ (number Errno.eilseq, "Illegal byte sequence.")
    ∷ (number Errno.einprogress, "Operation in progress.")
    ∷ (number Errno.eintr, "Interrupted function.")
    ∷ (number Errno.einval, "Invalid argument.")
    ∷ (number Errno.eio, "IO error.")
    ∷ (number Errno.eisconn, "Socket is connected.")
    ∷ (number Errno.eisdir, "Is a directory.")
    ∷ (number Errno.eloop, "Too many levels of symbolic links.")
    ∷ (number Errno.emfile, "File descriptor value too large.")
    ∷ (number Errno.emlink, "Too many links.")
    ∷ (number Errno.emsgsize, "Message too large.")
    ∷ (number Errno.emultihop, "Reserved.")
    ∷ (number Errno.enametoolong, "Filename too long.")
    ∷ (number Errno.enetdown, "Network is down.")
    ∷ (number Errno.enetreset, "Connection aborted by network.")
    ∷ (number Errno.enetunreach, "Network unreachable.")
    ∷ (number Errno.enfile, "Too many files open in system.")
    ∷ (number Errno.enobufs, "No buffer space available.")
    ∷ (number Errno.enodata, "No message is available on the STREAM head read queue.")
    ∷ (number Errno.enodev, "No such device.")
    ∷ (number Errno.enoent, "No such file or directory.")
    ∷ (number Errno.enoexec, "Executable file format error.")
    ∷ (number Errno.enolck, "No locks available.")
    ∷ (number Errno.enolink, "Reserved.")
    ∷ (number Errno.enomem, "Not enough space.")
    ∷ (number Errno.enomsg, "No message of the desired type.")
    ∷ (number Errno.enoprotoopt, "Protocol not available.")
    ∷ (number Errno.enospc, "No space left on device.")
    ∷ (number Errno.enosr, "No STREAM resources.")
    ∷ (number Errno.enostr, "Not a STREAM.")
    ∷ (number Errno.enosys, "Functionality not supported.")
    ∷ (number Errno.enotconn, "The socket is not connected.")
    ∷ (number Errno.enotdir, "Not a directory or a symbolic link to a directory.")
    ∷ (number Errno.enotempty, "Directory not empty.")
    ∷ (number Errno.enotrecoverable, "State not recoverable.")
    ∷ (number Errno.enotsock, "Not a socket.")
    ∷ (number Errno.enotsup, "Not supported.")
    ∷ (number Errno.enotty, "Inappropriate IO control operation.")
    ∷ (number Errno.enxio, "No such device or address.")
    ∷ (number Errno.eopnotsupp, "Operation not supported on socket.")
    ∷ (number Errno.eoverflow, "Value too large to be stored in data type.")
    ∷ (number Errno.eownerdead, "Previous owner died.")
    ∷ (number Errno.eperm, "Operation not permitted.")
    ∷ (number Errno.epipe, "Broken pipe.")
    ∷ (number Errno.eproto, "Protocol error.")
    ∷ (number Errno.eprotonosupport, "Protocol not supported.")
    ∷ (number Errno.eprototype, "Protocol wrong type for socket.")
    ∷ (number Errno.erange, "Result too large.")
    ∷ (number Errno.erofs, "Read-only file system.")
    ∷ (number Errno.espipe, "Invalid seek.")
    ∷ (number Errno.esrch, "No such process.")
    ∷ (number Errno.estale, "Reserved.")
    ∷ (number Errno.etime, "Stream ioctl() timeout.")
    ∷ (number Errno.etimedout, "Connection timed out.")
    ∷ (number Errno.etxtbsy, "Text file busy.")
    ∷ (number Errno.ewouldblock, "Operation would block.")
    ∷ (number Errno.exdev, "Cross-device link.")
    ∷ []

-- What an array has at an index: a later initializer of the same index is in force. `none`: a NULL that
-- no initializer has replaced, or an index behind the array.
unfoldable pub element : ℕ → List (ℕ × String) → Option String
element n [] = none
element n ((k, s) ∷ rest) =
    let later = element n rest in
    elim later [ some t ↦ some t | none ↦ if n == k then some s else none ]

unfoldable pub strerror : ℕ → Option String
unfolding errmsg element
strerror errnum = element errnum errmsg
