-- ===== src/Errno.antt =====
-- include/errno.h: the error numbers; lib/libc/string/strerror.c: their messages.
pub mod Message
pub mod Described
use trunix.Prelude.{ℕ}

pub data Errno : Type 0 where
  e2big eacces eaddrinuse eaddrnotavail eafnosupport eagain ealready ebadf ebadmsg : Errno
  ebusy ecanceled echild econnaborted econnrefused econnreset edeadlk edestaddrreq edom : Errno
  edquot eexist efault efbig ehostunreach eidrm eilseq einprogress eintr einval eio : Errno
  eisconn eisdir eloop emfile emlink emsgsize emultihop enametoolong enetdown enetreset : Errno
  enetunreach enfile enobufs enodata enodev enoent enoexec enolck enolink enomem enomsg : Errno
  enoprotoopt enospc enosr enostr enosys enotconn enotdir enotempty enotrecoverable : Errno
  enotsock enotsup enotty enxio eopnotsupp eoverflow eownerdead eperm epipe eproto : Errno
  eprotonosupport eprototype erange erofs espipe esrch estale etime etimedout etxtbsy : Errno
  ewouldblock exdev : Errno

unfoldable pub number : Errno → ℕ
number e2big = 1
number eacces = 2
number eaddrinuse = 3
number eaddrnotavail = 4
number eafnosupport = 5
number eagain = 6
number ealready = 7
number ebadf = 8
number ebadmsg = 9
number ebusy = 10
number ecanceled = 11
number echild = 12
number econnaborted = 13
number econnrefused = 14
number econnreset = 15
number edeadlk = 16
number edestaddrreq = 17
number edom = 18
number edquot = 19
number eexist = 20
number efault = 21
number efbig = 22
number ehostunreach = 23
number eidrm = 24
number eilseq = 25
number einprogress = 26
number eintr = 27
number einval = 28
number eio = 29
number eisconn = 30
number eisdir = 31
number eloop = 32
number emfile = 33
number emlink = 34
number emsgsize = 35
number emultihop = 36
number enametoolong = 37
number enetdown = 38
number enetreset = 39
number enetunreach = 40
number enfile = 41
number enobufs = 42
number enodata = 43
number enodev = 44
number enoent = 45
number enoexec = 46
number enolck = 47
number enolink = 48
number enomem = 49
number enomsg = 50
number enoprotoopt = 51
number enospc = 52
number enosr = 53
number enostr = 54
number enosys = 55
number enotconn = 56
number enotdir = 57
number enotempty = 58
number enotrecoverable = 59
number enotsock = 60
number enotsup = 61
number enotty = 62
number enxio = 63
number eopnotsupp = 64
number eoverflow = 65
number eownerdead = 66
number eperm = 67
number epipe = 68
number eproto = 69
number eprotonosupport = 70
number eprototype = 71
number erange = 72
number erofs = 73
number espipe = 74
number esrch = 75
number estale = 76
number etime = 77
number etimedout = 78
number etxtbsy = 79
number ewouldblock = 80
number exdev = 81
